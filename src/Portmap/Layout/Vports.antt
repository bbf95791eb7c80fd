-- ===== src/Portmap/Layout/Vports.antt =====
-- What the generated functions of a virtual port do, as C reads them.
use avr_ha_lib.Prelude.{
  ℕ, zero, suc, ◌+◌, ◌≤◌, ◌<◌, ◌≡◌, refl, ap, ◌∙◌, true, false, not, ◌&&◌, Option, none, some, List,
  [], ◌∷◌, arith, ◌==◌, ltb, if◌then◌else◌, map, All, bit_and, Bool-cases, Option-cases, inl, inr,
  ℕ_discrete,
}
use mathlib.Core.Path.{ap₂}
use avr_ha_lib.Prelude.Masks.{ones, shl, shr, low, bit_and-shl-ones, shr-shl, low_idem}
use avr_ha_lib.Portmap.Description.{PinBlock, pin_count}
use avr_ha_lib.Portmap.Layout.{Term, terms, get_bit_mask, total_pins}
use avr_ha_lib.Portmap.Layout.Masks.{hex_value, get_bit_mask-ones}

abbrev pub shift_right : Option ℕ → ℕ → ℕ
shift_right none v = v
shift_right (some n) v = shr n v

abbrev pub shift_left : Option ℕ → ℕ → ℕ
shift_left none v = v
shift_left (some n) v = shl n v

-- A bit-field of one bit is a `bool`, any other keeps the lowest bits of what is stored.
abbrev pub kept : ℕ → ℕ → ℕ
kept count v = if count == 1 then (if v == 0 then 0 else 1) else low count v

-- What `set(i)` leaves in the bit-field of a term.
abbrev pub stored : ℕ → Term → ℕ
stored i t = kept (pin_count t.block) (shift_right t.set_shift (bit_and i (hex_value t.mask)))

-- A field's part of what `get` returns.
abbrev pub got : ℕ → Term → ℕ
got v t = shift_left t.get_shift v

-- `||` of the parts.
abbrev pub any : List ℕ → ℕ
any [] = 0
any (v ∷ vs) = if (v == 0) && (any vs == 0) then 0 else 1

abbrev pub parts : List Term → List ℕ → List ℕ
parts [] vs = []
parts (t ∷ ts) [] = []
parts (t ∷ ts) (v ∷ vs) = got v t ∷ parts ts vs

-- The expression that `get` returns, of the terms and the values of their fields.
abbrev pub getter : List Term → List ℕ → ℕ
getter [] vs = 0
getter (t ∷ []) [] = 0
getter (t ∷ []) (v ∷ vs) = got v t
getter (t ∷ u ∷ ts) vs = any (parts (t ∷ u ∷ ts) vs)

-- The bits of `i` for each pin block, from the bit `at` on.
abbrev pub slices : ℕ → ℕ → List PinBlock → List ℕ
slices i at [] = []
slices i at (p ∷ ps) = low (pin_count p) (shr at i) ∷ slices i (at + pin_count p) ps

-- A pin block of 1 to 8 pins.
abbrev pub Fits : PinBlock → Type 0
Fits p = (0 < pin_count p) × (pin_count p ≤ 8)

abbrev term : PinBlock → ℕ → List ℕ → Term
term p at mask = record {
  block = p;
  get_shift = if ltb 0 at then some at else none;
  mask = mask;
  set_shift = if ltb 0 at && not (pin_count p == 1) then some at else none;
}

low-kept : (n x : ℕ) → kept n (low n x) ≡ low n x
low-kept n x = elim (ℕ_discrete n 1) [
  | yes e ↦ rw e (ground arith)
  | no e ↦ let more : (n == 1) ≡ false = ground arith in rw more (low_idem n x)
]

shl_zero : (f x : ℕ) → (shl f x == 0) ≡ (x == 0)
shl_zero zero x = refl
shl_zero (suc f) x = ground (arith, shl_zero f x)

unshift :
    (at count x : ℕ)
    → kept count (
        shift_right
          (if ltb 0 (suc at) && not (count == 1) then some (suc at) else none)
          (shl (suc at) x))
      ≡ kept count x
unshift at count x =
    let pos : ltb 0 (suc at) ≡ true = ground arith in
    elim (Bool-cases (count == 1)) [
      | inl e ↦ rw (pos, e) (ap (λ b. if b then 0 else 1) (shl_zero (suc at) x))
      | inr e ↦ rw (pos, e) (ap (low count) (shr-shl (suc at) x))
    ]

kept-masked :
    (i at count : ℕ)
    → kept count (
        shift_right
          (if ltb 0 at && not (count == 1) then some at else none)
          (bit_and i (shl at (ones count))))
      ≡ low count (shr at i)
kept-masked i zero count = rw (bit_and-shl-ones 0 count i) (low-kept count i)
kept-masked i (suc at) count =
    rw (bit_and-shl-ones (suc at) count i)
      (unshift at count (low count (shr (suc at) i)) ∙ low-kept count (shr (suc at) i))

terms-slices :
    (i at total : ℕ) (ps : List PinBlock)
    → All Fits ps
    → at + total_pins ps ≤ total
    → total ≤ 32
    → (ts : List Term) × (terms total at ps ≡ some ts) × (map (stored i) ts ≡ slices i at ps)
unfolding terms
terms-slices i at total [] fit room small = ([], ground arith, refl)
terms-slices i at total (p ∷ ps) (fits, fit) room small =
    let (m, made, value) =
      get_bit_mask-ones at (pin_count p) (omega (arith, fits.0)) fits.0 (omega (arith, fits.1)) in
    let (ts, rest, put) = terms-slices i (at + pin_count p) total ps fit (omega arith) small in
    (
      term p at m ∷ ts,
      rw (made, rest) refl,
      ap₂ ◌∷◌
          (ap (λ h. kept (pin_count p) (shift_right (term p at m).set_shift (bit_and i h))) value
            ∙ kept-masked i at (pin_count p))
          put,
    )

-- For pin blocks of 1 to 8 pins, with at most 32 together: the generated `set(i)` leaves in the fields,
-- block by block, the bits of `i` from the lowest on, as many for each block as it has pins.
pub terms-stored :
    (i : ℕ) (ps : List PinBlock)
    → All Fits ps
    → total_pins ps ≤ 32
    → (ts : List Term) × (terms (total_pins ps) 0 ps ≡ some ts)
      × (map (stored i) ts ≡ slices i 0 ps)
terms-stored i ps fit small = terms-slices i 0 (total_pins ps) ps fit (omega arith) small

any-le : (vs : List ℕ) → any vs ≤ 1
any-le [] = omega arith
any-le (v ∷ vs) = ground arith

terms-cons :
    (total at : ℕ) (p : PinBlock) (ps : List PinBlock) (ts : List Term)
    → terms total at (p ∷ ps) ≡ some ts
    → (m : List ℕ) × (us : List Term) × (ts ≡ term p at m ∷ us)
      × (terms total (at + pin_count p) ps ≡ some us)
unfolding terms
terms-cons total at p ps ts h = elim (Option-cases (get_bit_mask at (pin_count p))) [
  | inl e ↦ absurd (cc (rw e at h))
  | inr (m, e) ↦ elim (Option-cases (terms total (at + pin_count p) ps)) [
    | inl none_left ↦ absurd (cc (rw (e, none_left) at h))
    | inr (us, rest) ↦ (m, us, cc (rw (e, rest) at h), rest)
  ]
]

getter-parts : (t u : Term) (ts : List Term) (vs : List ℕ) → getter (t ∷ u ∷ ts) vs ≤ 1
getter-parts t u ts vs = any-le (parts (t ∷ u ∷ ts) vs)

-- The generated `get` of a virtual port with more than one pin block returns 0 or 1, whatever the fields
-- hold, since it joins them by `||`.
pub getter_bound :
    (total : ℕ) (p q : PinBlock) (ps : List PinBlock) (ts : List Term) (vs : List ℕ)
    → terms total 0 (p ∷ q ∷ ps) ≡ some ts
    → getter ts vs ≤ 1
getter_bound total p q ps ts vs e =
    let (m, us, shape, rest) = terms-cons total 0 p (q ∷ ps) ts e in
    let (n, ws, shape', rest') = terms-cons total (0 + pin_count p) q ps us rest in
    rw (shape, shape') (getter-parts (term p 0 m) (term q (0 + pin_count p) n) ws vs)

-- When the pin blocks and the bits before them are more than 32, the loops of the generated functions,
-- whose count of bits is cut to 32, run past the end of the list.
pub terms-past_end : (at : ℕ) (ps : List PinBlock) → 32 < at + total_pins ps → terms 32 at ps ≡ none
unfolding terms
terms-past_end at [] h = ground arith
terms-past_end at (p ∷ ps) h = elim (Option-cases (get_bit_mask at (pin_count p))) [
  | inl e ↦ rw e refl
  | inr (m, e) ↦ rw (e, terms-past_end (at + pin_count p) ps (omega arith)) refl
]
