-- ===== src/Portmap/Layout/Masks.antt =====
-- The masks that the functions of a virtual port are generated with.
use avr_ha_lib.Prelude.{
  ℕ, zero, suc, ◌+◌, ◌-◌, ◌*◌, ◌≤◌, ◌<◌, ◌≡◌, refl, Bool, true, false, ◌&&◌, Option, none, some, [],
  ◌∷◌, arith, ◌==◌, ==_iff, leb, if◌then◌else◌, drop,
}
use avr_ha_lib.Prelude.Masks.{ones, shl}
use avr_ha_lib.Portmap.Text.{Text}
use avr_ha_lib.Portmap.Layout.{get_bit_mask, mask_zeros, mask_digits}

-- The value of hexadecimal digits behind the value `n`.
abbrev pub hex_from : ℕ → Text → ℕ
hex_from n [] = n
hex_from n (c ∷ cs) = hex_from (16 * n + (if leb c b'9' then c - 48 else c - 87)) cs

-- The value of a text behind its `0x`.
abbrev pub hex_value : Text → ℕ
hex_value s = hex_from 0 (drop 2 s)

-- There is a text, and it has the value `n`.
abbrev has_value : ℕ → Option Text → Bool
has_value n none = false
has_value n (some m) = hex_value m == n

has_value-some :
    (n : ℕ) (o : Option Text) → has_value n o ≡ true → (m : Text) × (o ≡ some m) × (hex_value m ≡ n)
has_value-some n none h = absurd (cc)
has_value-some n (some m) h = (m, refl, (==_iff (hex_value m) n).0 h)

all_below : ℕ → (ℕ → Bool) → Bool
all_below zero p = true
all_below (suc n) p = p n && all_below n p

below-all : (n : ℕ) (p : ℕ → Bool) (x : ℕ) → all_below n p ≡ true → x < n → p x ≡ true
unfolding all_below
below-all zero p x all h = absurd (omega arith)
below-all (suc n) p x all h = ground (arith, below-all n p x)

-- The mask is there, and is `count` ones behind `first` zeros.
abbrev is_mask : ℕ → ℕ → Bool
is_mask first count = has_value (shl first (ones count)) (get_bit_mask first count)

table : all_below 32 (λ first. all_below 32 (λ count. is_mask first (suc count))) ≡ true
unfolding all_below get_bit_mask mask_zeros mask_digits
table = refl

-- For a first bit below 32 and 1 to 32 bits, `getBitMask` gives a hexadecimal number whose value has
-- exactly that many ones, from the first bit on.
pub get_bit_mask-ones :
    (first count : ℕ)
    → first < 32
    → 0 < count
    → count ≤ 32
    → (m : Text) × (get_bit_mask first count ≡ some m) × (hex_value m ≡ shl first (ones count))
get_bit_mask-ones first zero h pos le = absurd (omega arith)
get_bit_mask-ones first (suc count) h pos le =
    let row =
      below-all 32 (λ first. all_below 32 (λ count. is_mask first (suc count))) first table h in
    let cell = below-all 32 (λ count. is_mask first (suc count)) count row (omega arith) in
    has_value-some (shl first (ones (suc count))) (get_bit_mask first (suc count)) cell
