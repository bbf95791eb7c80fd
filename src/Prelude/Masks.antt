-- ===== src/Prelude/Masks.antt =====
-- A mask of neighbouring ones picks as many binary digits out of a number.
use Prim.Native.Nat.{digits, bit_and-bitwise, min}
use avr_ha_lib.Prelude.{
  ℕ, zero, suc, ◌+◌, ◌*◌, ◌/◌, ◌%◌, ◌≤◌, ◌≡◌, refl, ap, ◌∙◌, arith, bit_and, ℕ_discrete,
}

-- `n` ones.
abbrev pub ones : ℕ → ℕ
ones zero = 0
ones (suc n) = 2 * ones n + 1

-- A shift to the left and to the right.
abbrev pub shl : ℕ → ℕ → ℕ
shl zero x = x
shl (suc f) x = 2 * shl f x

abbrev pub shr : ℕ → ℕ → ℕ
shr zero x = x
shr (suc f) x = shr f (x / 2)

-- The lowest `n` binary digits.
abbrev pub low : ℕ → ℕ → ℕ
low zero x = 0
low (suc n) x = 2 * low n (x / 2) + x % 2

meet : ℕ → ℕ → ℕ → ℕ
meet = digits (λ b. zero) min

-- More rounds than a number has digits change nothing.
meet_more : (n a b : ℕ) → a ≤ n → meet (suc n) a b ≡ meet n a b
unfolding meet
meet_more zero zero b h = refl
meet_more zero (suc a) b h = absurd (omega arith)
meet_more (suc n) zero b h = refl
meet_more (suc n) (suc a) b h = omega (arith, meet_more n (suc a / 2) (b / 2) (omega arith))

meet_self : (n b : ℕ) → meet n n b ≡ bit_and n b
unfolding meet
meet_self n b = omega (arith, bit_and-bitwise n b)

meet_enough : (n a b : ℕ) → a ≤ n → meet n a b ≡ bit_and a b
meet_enough zero zero b h = meet_self 0 b
meet_enough zero (suc a) b h = absurd (omega arith)
meet_enough (suc n) a b h = elim (ℕ_discrete a (suc n)) [
  | yes e ↦ rw e (meet_self (suc n) b)
  | no e ↦ meet_more n a b (omega arith) ∙ meet_enough n a b (omega arith)
]

pub bit_and_step : (a b : ℕ) → bit_and a b ≡ 2 * bit_and (a / 2) (b / 2) + min (a % 2) (b % 2)
unfolding meet
bit_and_step zero b = omega (arith, bit_and-bitwise 0 b, bit_and-bitwise 0 (b / 2))
bit_and_step (suc a) b =
    omega (arith, bit_and-bitwise (suc a) b, meet_enough a (suc a / 2) (b / 2) (omega arith))

pub bit_and-zero : (n a : ℕ) → a ≤ n → bit_and a 0 ≡ 0
bit_and-zero zero zero h = refl
bit_and-zero zero (suc a) h = absurd (omega arith)
bit_and-zero (suc n) a h = elim (ℕ_discrete a 0) [
  | yes e ↦ rw e refl
  | no e ↦ omega (arith, bit_and_step a 0, bit_and-zero n (a / 2) (omega arith))
]

bit_and-ones : (n a : ℕ) → bit_and a (ones n) ≡ low n a
bit_and-ones zero a = bit_and-zero a a (omega arith)
bit_and-ones (suc n) a =
    let half : (2 * ones n + 1) / 2 ≡ ones n = omega arith in
    omega
      (arith, bit_and_step a (2 * ones n + 1), ap (bit_and (a / 2)) half, bit_and-ones n (a / 2))

-- The mask of `n` ones behind `f` zeros picks the `n` digits behind the lowest `f`.
pub bit_and-shl-ones : (f n a : ℕ) → bit_and a (shl f (ones n)) ≡ shl f (low n (shr f a))
bit_and-shl-ones zero n a = bit_and-ones n a
bit_and-shl-ones (suc f) n a =
    let half : 2 * shl f (ones n) / 2 ≡ shl f (ones n) = omega arith in
    omega (
      arith,
      bit_and_step a (2 * shl f (ones n)),
      ap (bit_and (a / 2)) half,
      bit_and-shl-ones f n (a / 2),
    )

pub shr-shl : (f a : ℕ) → shr f (shl f a) ≡ a
shr-shl zero a = refl
shr-shl (suc f) a =
    let half : 2 * shl f a / 2 ≡ shl f a = omega arith in ap (shr f) half ∙ shr-shl f a

pub low_idem : (n a : ℕ) → low n (low n a) ≡ low n a
low_idem zero a = refl
low_idem (suc n) a =
    let half : (2 * low n (a / 2) + a % 2) / 2 ≡ low n (a / 2) = omega arith in
    omega (arith, ap (low n) half, low_idem n (a / 2))
