-- ===== src/Pid/Window.antt =====
-- The index of the controller's window.
use avr_ha_lib.Prelude.{
  ℕ, zero, suc, ◌+◌, ◌≤◌, ◌<◌, ◌≡◌, refl, ◌∙◌, ap, none, some, Option, List, [], ◌∷◌, length,
  get_elem?, arith, length-set,
}
use avr_ha_lib.Pid.{
  Arithmetic, Pid, init, next_index, controlled, control, control_all, window_size,
}

present {ℓ} :
    {A : Type ℓ} (xs : List A) (i : ℕ) → i < length xs → (a : A) × (get_elem? xs i ≡ some a)
present [] i h = absurd (omega arith)
present (x ∷ xs) zero h = (x, refl)
present (x ∷ xs) (suc i) h = present xs i (omega arith)

missing {ℓ} : {A : Type ℓ} (xs : List A) (i : ℕ) → length xs ≤ i → get_elem? xs i ≡ none
missing [] i h = refl
missing (x ∷ xs) zero h = absurd (omega arith)
missing (x ∷ xs) (suc i) h = missing xs i (omega arith)

module _ {ℓ} {A : Type ℓ} (ar : Arithmetic A) (low high : A) where
  control-some :
      (input old oldest : A) (s : Pid A)
      → get_elem? s.e s.index ≡ some old
      → get_elem? s.e (next_index ar s.index) ≡ some oldest
      → control ar low high input s ≡ some (controlled ar low high input s old oldest)
  unfolding control
  control-some input old oldest s e f = rw (e, f, control) refl

  control-none :
      (input old : A) (s : Pid A)
      → get_elem? s.e s.index ≡ some old
      → get_elem? s.e (next_index ar s.index) ≡ none
      → control ar low high input s ≡ none
  unfolding control
  control-none input old s e f = rw (e, f, control) refl

  control_all-some :
      (x : A) (xs : List A) (s s' : Pid A)
      → control ar low high x s ≡ some s'
      → control_all ar low high (x ∷ xs) s ≡ control_all ar low high xs s'
  unfolding control_all
  control_all-some x xs s s' e =
      ap
        (λ o. elim o as (λ _. Option (Pid A)) [
          | none ↦ none
          | some u ↦ control_all ar low high xs u
        ])
        e

  -- Inputs that stay inside of the window.
  control_all-inside :
      (xs : List A) (s : Pid A)
      → length s.e ≡ window_size
      → s.index + length xs < window_size
      → (s' : Pid A) × (control_all ar low high xs s ≡ some s')
        × (s'.index ≡ s.index + length xs)
        × (length s'.e ≡ window_size)
  unfolding control_all
  control_all-inside [] s size lim = (s, refl, omega arith, size)
  control_all-inside (x ∷ xs) s size lim =
      let next : next_index ar s.index ≡ s.index + 1 = ground arith in
      let (old, e) = present s.e s.index (omega arith) in
      let (oldest, f) = present s.e (next_index ar s.index) (omega (arith, next, size, lim)) in
      let u = controlled ar low high x s old oldest in
      let (s', r, i, l) =
        control_all-inside xs u (length-set s.e (next_index ar s.index) _ ∙ size)
          (omega (arith, next, lim)) in
      (
        s',
        control_all-some x xs s u (control-some x old oldest s e f) ∙ r,
        i ∙ omega (arith, next),
        l,
      )

  -- The controller takes any seven inputs after its construction; the next one, whatever it is, counts
  -- the index to the window's size and accesses the window behind its end.
  pub control-eighth :
      (xs : List A) (x : A)
      → length xs ≡ 7
      → (s : Pid A) × (control_all ar low high xs (init ar) ≡ some s)
        × (control ar low high x s ≡ none)
  control-eighth xs x seven =
      let (s, r, i, l) = control_all-inside xs (init ar) refl (omega arith) in
      let at : s.index ≡ 7 = i ∙ omega (arith, seven) in
      let next : next_index ar s.index ≡ 8 = ground arith in
      let (old, e) = present s.e s.index (omega (arith, at, l)) in
      (s, r, control-none x old s e (missing s.e (next_index ar s.index) (omega (arith, next, l))))
