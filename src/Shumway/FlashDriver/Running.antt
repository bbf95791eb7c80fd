-- ===== src/Shumway/FlashDriver/Running.antt =====
-- Sequences of interrupts of the flash driver.
use avr_ha_lib.Prelude.{
  ℕ, zero, suc, ◌+◌, ◌≤◌, ◌≡◌, refl, ap, ◌∙◌, inl, inr, true, false, Option, none, some, arith,
  if_cases, Option-cases,
}
use avr_ha_lib.Shumway.FlashDriver.{Part, Driver, Handler, call, step, run}

module _ {M : Type 0} (p : Part M) (ram : ℕ → ℕ) where
  -- An interrupt that has a handler.
  pub run-suc :
      (s : Driver M) (h : Handler) (n : ℕ)
      → s.spmie ≡ true
      → s.irq_handler ≡ some h
      → run p ram (suc n) s ≡ run p ram n (call p ram h s)
  unfolding run step
  run-suc s h n e f = rw (e, f) refl

  step-disabled : (s : Driver M) → s.spmie ≡ false → step p ram s ≡ some s
  unfolding step
  step-disabled s e = if_cases (λ o. o ≡ some s) s.spmie (λ t. absurd (cc)) (λ _. refl)

  -- Without SPMIE nothing more happens.
  pub run-disabled : (n : ℕ) (s : Driver M) → s.spmie ≡ false → run p ram n s ≡ some s
  unfolding run
  run-disabled zero s e = refl
  run-disabled (suc n) s e =
      ap (λ o. elim o as (λ _. Option (Driver M)) [ none ↦ none | some u ↦ run p ram n u ])
        (step-disabled s e)
      ∙ run-disabled n s e

  abbrev pub on : ℕ → Option (Driver M) → Option (Driver M)
  on k none = none
  on k (some s) = run p ram k s

  pub run-add : (n k : ℕ) (s : Driver M) → run p ram (n + k) s ≡ on k (run p ram n s)
  unfolding run
  run-add zero k s = let e : 0 + k ≡ k = omega arith in rw e refl
  run-add (suc n) k s =
      let e : suc n + k ≡ suc (n + k) = omega arith in
      elim (Option-cases (step p ram s)) [
        | inl stops ↦ rw (e, stops, run) refl
        | inr (u, goes) ↦ rw (e, goes, run) (run-add n k u)
      ]

  -- Some of the next `k` interrupts lead to a state with `P`.
  abbrev pub Within : ℕ → Driver M → (Driver M → Type 0) → Type 0
  Within k s P = (n : ℕ) × (t : Driver M) × (n ≤ k) × (run p ram n s ≡ some t) × P t

  pub Within_now : (k : ℕ) (P : Driver M → Type 0) (s : Driver M) → P s → Within k s P
  unfolding run
  Within_now k P s h = (0, s, omega arith, refl, h)

  pub Within-suc :
      (k : ℕ) (P : Driver M → Type 0) (s : Driver M) (h : Handler)
      → s.spmie ≡ true
      → s.irq_handler ≡ some h
      → Within k (call p ram h s) P
      → Within (suc k) s P
  Within-suc k P s h e f (n, t, b, r, q) = (suc n, t, omega arith, run-suc s h n e f ∙ r, q)

  pub Within_then :
      (j k : ℕ) (P Q : Driver M → Type 0) (s : Driver M)
      → Within j s P
      → ((t : Driver M) → P t → Within k t Q)
      → Within (j + k) s Q
  Within_then j k P Q s (n, t, b, r, q) f =
      let (n', t', b', r', q') = f t q in
      (n + n', t', omega arith, run-add n n' s ∙ ap (on n') r ∙ r', q')
