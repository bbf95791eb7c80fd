-- ===== src/CFrame/Frame.antt =====
-- The frame of a payload: what cframe.h says goes over the line, written without the machines.
use avr_ha_lib.Prelude.{
  ℕ, ◌<◌, ◌≡◌, refl, ◌≢◌, true, false, List, [], ◌∷◌, ◌++◌, arith, if◌then◌else◌, ◌⊎◌, inl, inr,
  Bool-cases, sym, All, All-append,
}
use avr_ha_lib.Prelude.Bits.{byte_xor-lt, byte_xor_twice}
use mathlib.Core.Path.{subst}
use avr_ha_lib.CFrame.{Stuffing, is_control, unstuff, old_readable, readable, ascii}

-- One byte of the payload: itself, or the escape byte and the changed byte.
abbrev pub stuffed : Stuffing → ℕ → List ℕ
stuffed s c = if is_control s c then s.esc ∷ unstuff s c ∷ [] else c ∷ []

unfoldable pub encode : Stuffing → List ℕ → List ℕ
encode s [] = []
encode s (c ∷ cs) = stuffed s c ++ encode s cs

abbrev pub frame : Stuffing → List ℕ → List ℕ
frame s p = s.sofr ∷ (encode s p ++ s.eofr ∷ [])

abbrev pub IsByte : ℕ → Type 0
IsByte c = c < 256

-- The escape byte is no other mark, and the marks are characters that a signed `char` holds.
pub record IsValid (s : Stuffing) : Type 0 where
  pub esc_small : s.esc < 128
  pub sofr_small : s.sofr < 128
  pub eofr_small : s.eofr < 128
  pub escmod_byte : s.escmod < 256
  pub esc_sofr : s.esc ≢ s.sofr
  pub esc_eofr : s.esc ≢ s.eofr
  pub sofr_eofr : s.sofr ≢ s.eofr

-- An escaped mark no longer looks like one.
abbrev pub HidesMarks : Stuffing → Type 0
HidesMarks s = (c : ℕ) → is_control s c ≡ true → is_control s (unstuff s c) ≡ false

-- Unstuffing is its own inverse on bytes.
pub unstuff_twice : (s : Stuffing) (c : ℕ) → s.escmod < 256 → c < 256 → unstuff s (unstuff s c) ≡ c
unstuff_twice s c v h = ground (arith, byte_xor-lt c s.escmod, byte_xor_twice c s.escmod)

pub old_readable-IsValid : IsValid old_readable
old_readable-IsValid = omega arith

pub readable-IsValid : IsValid readable
readable-IsValid = omega arith

pub ascii-IsValid : IsValid ascii
ascii-IsValid = omega arith

-- Of the configurations in the file: checked at the three marks.
hides_three :
    (s : Stuffing)
    → s.use_none_char ≡ false
    → s.use_xon_xoff ≡ false
    → is_control s (unstuff s s.esc) ≡ false
    → is_control s (unstuff s s.sofr) ≡ false
    → is_control s (unstuff s s.eofr) ≡ false
    → HidesMarks s
hides_three s n x e b f c h = elim three [
  | inl p ↦ subst (λ k. is_control s (unstuff s k) ≡ false) (sym p) e
  | inr (inl p) ↦ subst (λ k. is_control s (unstuff s k) ≡ false) (sym p) b
  | inr (inr p) ↦ subst (λ k. is_control s (unstuff s k) ≡ false) (sym p) f
]
  where
    three : (c ≡ s.esc) ⊎ ((c ≡ s.sofr) ⊎ (c ≡ s.eofr))
    three = ground arith

pub readable-HidesMarks : HidesMarks readable
readable-HidesMarks = hides_three readable refl refl refl refl refl

pub old_readable-HidesMarks : HidesMarks old_readable
old_readable-HidesMarks = hides_three old_readable refl refl refl refl refl

pub ascii-HidesMarks : HidesMarks ascii
ascii-HidesMarks = hides_three ascii refl refl refl refl refl

abbrev pub Unmarked : Stuffing → ℕ → Type 0
Unmarked s x = (x ≢ s.sofr) × (x ≢ s.eofr)

module _ {s : Stuffing} (v : IsValid s) (hides : HidesMarks s) where
  stuffed-Unmarked : (c : ℕ) → All (Unmarked s) (stuffed s c)
  stuffed-Unmarked c = elim (Bool-cases (is_control s c)) [
    | inl e ↦ rw e ((v.esc_sofr, v.esc_eofr), (unmarked (unstuff s c) (hides c e), tt))
    | inr e ↦ rw e (unmarked c e, tt)
  ]
    where
      unmarked : (x : ℕ) → is_control s x ≡ false → Unmarked s x
      unmarked x e = ground arith

  -- Between the marks no start mark and no end mark stands.
  pub encode-Unmarked : (p : List ℕ) → All (Unmarked s) (encode s p)
  unfolding encode
  encode-Unmarked [] = tt
  encode-Unmarked (c ∷ cs) =
      All-append (Unmarked s) (stuffed s c) (encode s cs) (stuffed-Unmarked c) (encode-Unmarked cs)
