-- ===== src/Pid.antt =====
-- include/avr-halib/common/pid.h: the controller's window of errors. The arithmetic of `FixPointValue` is a
-- parameter; an access behind the array `e` has no result.
mod Window
use avr_ha_lib.Prelude.{
  ℕ, zero, suc, ◌+◌, ◌%◌, Bool, true, false, Option, none, some, List, [], ◌∷◌, leb, if◌then◌else◌,
  get_elem?, set, replicate,
}

-- The operations that `control` uses, with the products with the gains and the quotient by the
-- window's size.
pub record Arithmetic {ℓ} (A : Type ℓ) : Type ℓ where
  pub zero_value : A
  pub plus : A → A → A
  pub minus : A → A → A
  pub times_kp : A → A
  pub times_kd : A → A
  pub times_ki_by_window : A → A
  pub above : A → A → Bool

abbrev pub window_size : ℕ
window_size = 8

pub record Pid {ℓ} (A : Type ℓ) : Type ℓ where
  pub e : List A
  pub index : ℕ
  pub sum_e : A
  pub target_value : A
  pub current_value : A

module _ {ℓ} {A : Type ℓ} (ar : Arithmetic A) where
  abbrev pub init : Pid A
  init = record {
    e = replicate window_size ar.zero_value;
    index = 0;
    sum_e = ar.zero_value;
    target_value = ar.zero_value;
    current_value = ar.zero_value;
  }

  abbrev pub set_target : A → Pid A → Pid A
  set_target target s = record s { target_value = target }

  abbrev pub next_index : ℕ → ℕ
  next_index i = if leb window_size i then 0 else (i + 1) % 256

  -- The limits, the upper one first.
  abbrev pub limited : A → A → A → A
  limited low high v =
      let v' = if ar.above v high then high else v in if ar.above low v' then low else v'

  -- What follows the two reads of the window.
  abbrev pub controlled : A → A → A → Pid A → A → A → Pid A
  controlled low high input s old_e oldest =
      let new_e = ar.minus s.target_value input in
      let sum_e = ar.plus s.sum_e (ar.minus new_e oldest) in
      let change =
        ar.plus (ar.plus (ar.times_kp new_e) (ar.times_kd (ar.minus new_e old_e)))
          (ar.times_ki_by_window sum_e) in
      record s {
        e = set s.e (next_index s.index) new_e;
        index = next_index s.index;
        sum_e = sum_e;
        current_value = limited low high (ar.plus s.current_value change);
      }

  unfoldable pub control : A → A → A → Pid A → Option (Pid A)
  control low high input s = elim (get_elem? s.e s.index) [
    | none ↦ none
    | some old_e ↦ elim (get_elem? s.e (next_index s.index)) [
      | none ↦ none
      | some oldest ↦ some (controlled low high input s old_e oldest)
    ]
  ]

  -- Inputs, in order.
  unfoldable pub control_all : A → A → List A → Pid A → Option (Pid A)
  control_all low high [] s = some s
  control_all low high (x ∷ xs) s = elim (control low high x s) [
    | none ↦ none
    | some s' ↦ control_all low high xs s'
  ]
