-- ===== src/Shumway/EepromDriver/Progress.antt =====
-- The interrupts of the EEPROM driver: how far a request has come, and its end.
use mathlib.Core.Path.{subst}
use avr_ha_lib.Prelude.{
  ℕ, zero, suc, ◌+◌, ◌-◌, ◌%◌, ◌^◌, ◌≤◌, ◌<◌, ◌≡◌, ◌≢◌, refl, sym, ap, ◌∙◌, ◌⊎◌, inl, inr, Bool,
  true, false, Option, none, some, ◌==◌, leb, if◌then◌else◌, arith, if_cases, Bool-cases,
  Option-cases, ℕ_discrete,
}
use avr_ha_lib.Shumway.Image.{patched, patched-suc}
use avr_ha_lib.Shumway.EepromDriver.{
  Driver, blank_byte, byte, take_byte, skip, write_next, isr, run,
}

module _ (ram : ℕ → ℕ) where
  skip-over :
      (fuel d : ℕ) (s : Driver)
      → leb s.addr s.dest_addr ≡ false
      → skip ram (suc fuel) d s ≡ some (d, s)
  unfolding skip
  skip-over fuel d s e = rw (e, skip) refl

  skip-same :
      (fuel d : ℕ) (s : Driver)
      → leb s.addr s.dest_addr ≡ true
      → (s.memory s.addr == byte ram s) ≡ true
      → skip ram (suc fuel) d s
        ≡ skip ram fuel (byte ram s) (record (take_byte ram s) { addr = (s.addr + 1) % 2 ^ 16 })
  unfolding skip
  skip-same fuel d s e f = rw (e, f, skip) refl

  skip-other :
      (fuel d : ℕ) (s : Driver)
      → leb s.addr s.dest_addr ≡ true
      → (s.memory s.addr == byte ram s) ≡ false
      → skip ram (suc fuel) d s ≡ some (byte ram s, take_byte ram s)
  unfolding skip
  skip-other fuel d s e f = rw (e, f, skip) refl

  run-suc :
      (fuel n : ℕ) (s s' : Driver)
      → s.eerie ≡ true
      → isr ram fuel s ≡ some s'
      → run ram fuel (suc n) s ≡ run ram fuel n s'
  unfolding run
  run-suc fuel n s s' e f =
      let rest = λ (o : Option Driver). elim o as (λ _. Option Driver) [
        | none ↦ none
        | some u ↦ run ram fuel n u
      ] in
      ap (λ b. elim b as (λ _. Option Driver) [ false ↦ some s | true ↦ rest (isr ram fuel s) ]) e
      ∙ ap rest f

  run-disabled : (fuel n : ℕ) (s : Driver) → s.eerie ≡ false → run ram fuel n s ≡ some s
  unfolding run
  run-disabled fuel zero s e = refl
  run-disabled fuel (suc n) s e =
      ap
        (λ b. elim b as (λ _. Option Driver) [
          | false ↦ some s
          | true ↦ elim (isr ram fuel s) as (λ _. Option Driver) [
            | none ↦ none
            | some u ↦ run ram fuel n u
          ]
        ])
        e

module _ (ram : ℕ → ℕ) (start len buffer : ℕ) (erase : Bool) (memory : ℕ → ℕ) (calls : ℕ) where
  abbrev pub bytes : ℕ → ℕ
  bytes i = if erase then blank_byte else ram (buffer + i)

  -- All is written up to the address `a`.
  pub record Progress (a : ℕ) (s : Driver) : Type 0 where
    pub at : s.addr ≡ a
    pub from : start ≤ a
    pub to : a ≤ start + len
    pub dest : s.dest_addr + 1 ≡ start + len
    pub limit : start + len < 2 ^ 16
    pub mode : s.erase ≡ erase
    pub taken : s.erase ≡ false → s.buffer ≡ buffer + (a - start)
    pub registered : s.cb ≡ true
    pub enabled : s.eerie ≡ true
    pub called : s.calls ≡ calls
    pub content : (x : ℕ) → s.memory x ≡ patched start (a - start) bytes memory x

  pub record Written (s : Driver) : Type 0 where
    pub released : s.cb ≡ false
    pub disabled : s.eerie ≡ false
    pub called : s.calls ≡ calls + 1
    pub content : (x : ℕ) → s.memory x ≡ patched start len bytes memory x

  byte-bytes : (a : ℕ) (s : Driver) → Progress a s → byte ram s ≡ bytes (a - start)
  byte-bytes a s h = elim (Bool-cases s.erase) [
    | inl e ↦ let e' : erase ≡ true = sym h.mode ∙ e in rw (e, e') refl
    | inr e ↦ let e' : erase ≡ false = sym h.mode ∙ e in rw (e, e') (ap ram (h.taken e))
  ]

  taken_more :
      (a : ℕ) (s : Driver)
      → Progress a s
      → s.erase ≡ false
      → (take_byte ram s).buffer ≡ buffer + (a + 1 - start)
  taken_more a s h e = let b = h.taken e in let f = h.from in rw e (omega (arith, b, f))

  content_more :
      (a : ℕ) (s : Driver) (memory' : ℕ → ℕ) (x : ℕ)
      → Progress a s
      → (x ≡ a → memory' x ≡ bytes (a - start))
      → (x ≢ a → memory' x ≡ s.memory x)
      → memory' x ≡ patched start (a + 1 - start) bytes memory x
  content_more a s memory' x h here there =
      let step = patched-suc start a bytes memory x h.from in
      elim (ℕ_discrete x a) [
        | yes e ↦ here e ∙ sym (step ∙ ground arith)
        | no e ↦ there e ∙ h.content x ∙ sym (step ∙ ground arith)
      ]

  pass-Progress :
      (a : ℕ) (s : Driver)
      → Progress a s
      → a < start + len
      → s.memory s.addr ≡ byte ram s
      → Progress (a + 1) (record (take_byte ram s) { addr = (s.addr + 1) % 2 ^ 16 })
  pass-Progress a s h lt same = record {
    at = omega (arith, h.at, h.limit);
    from = omega (arith, h.from);
    to = omega (arith, lt);
    dest = h.dest;
    limit = h.limit;
    mode = h.mode;
    taken = λ e. taken_more a s h e;
    registered = h.registered;
    enabled = h.enabled;
    called = h.called;
    content = λ x.
        content_more a s s.memory x h
          (λ here. ap s.memory (here ∙ sym h.at) ∙ same ∙ byte-bytes a s h) (λ _. refl);
  }

  write_next-Progress :
      (a : ℕ) (s : Driver)
      → Progress a s
      → a < start + len
      → Progress (a + 1) (write_next ram (byte ram s) (take_byte ram s))
  unfolding write_next
  write_next-Progress a s h lt =
      let to' : a + 1 ≤ start + len = omega (arith, lt) in
      if_cases (Progress (a + 1)) (leb s.addr s.dest_addr)
        (λ more. record {
          at = omega (arith, h.at, h.limit);
          from = omega (arith, h.from);
          to = to';
          dest = h.dest;
          limit = h.limit;
          mode = h.mode;
          taken = λ e. taken_more a s h e;
          registered = h.registered;
          enabled = h.enabled;
          called = h.called;
          content = λ x.
              content_more a s (λ y. if y == s.addr then byte ram s else s.memory y) x h
                (λ here.
                  if_cases (λ v. v ≡ bytes (a - start)) (x == s.addr) (λ _. byte-bytes a s h)
                    (λ e. absurd (ground (arith, h.at))))
                (λ other.
                  if_cases (λ v. v ≡ s.memory x) (x == s.addr) (λ e. absurd (ground (arith, h.at)))
                    (λ _. refl));
        })
        (λ over. absurd (ground (arith, h.at, h.dest, lt)))

  write_next-Written :
      (a d : ℕ) (s : Driver) → Progress a s → start + len ≤ a → Written (write_next ram d s)
  unfolding write_next
  write_next-Written a d s h le =
      if_cases Written (leb s.addr s.dest_addr)
        (λ more. absurd (ground (arith, h.at, h.dest, h.from)))
        λ over.
          if_cases Written s.cb
            (λ _. record {
              released = refl;
              disabled = refl;
              called = ap (λ n. n + 1) h.called;
              content = λ x.
                  h.content x
                  ∙ ap (λ n. patched start n bytes memory x) (omega (arith, h.to, h.from));
            })
            (λ e. absurd (cc (sym h.registered ∙ e)))

  -- What the loop hands to the rest of the interrupt, from the address `a` on.
  abbrev Leads : ℕ → Option (ℕ × Driver) → Type 0
  Leads a none = ⊥
  Leads a (some (d, s)) =
      ((b : ℕ) × (a < b) × Progress b (write_next ram d s)) ⊎ Written (write_next ram d s)

  Leads-weaken : (a b : ℕ) (o : Option (ℕ × Driver)) → a ≤ b → Leads b o → Leads a o
  Leads-weaken a b none le h = elim h [ ]
  Leads-weaken a b (some (d, s)) le (inl (c, lt, h)) = inl (c, omega arith, h)
  Leads-weaken a b (some (d, s)) le (inr w) = inr w

  skip-Leads :
      (fuel a d : ℕ) (s : Driver)
      → Progress a s
      → start + len < a + fuel
      → Leads a (skip ram fuel d s)
  skip-Leads zero a d s h enough = absurd (omega (arith, h.to))
  skip-Leads (suc fuel) a d s h enough = elim (Bool-cases (leb s.addr s.dest_addr)) [
    | inr over ↦
        rw (skip-over ram fuel d s over)
          (inr (write_next-Written a d s h (ground (arith, h.at, h.dest))))
    | inl more ↦
        let lt : a < start + len = ground (arith, h.at, h.dest) in
        elim (Bool-cases (s.memory s.addr == byte ram s)) [
          | inl same ↦ rw (skip-same ram fuel d s more same) (
              Leads-weaken a (a + 1) _ (omega arith) (
                skip-Leads fuel (a + 1) (byte ram s)
                  (record (take_byte ram s) { addr = (s.addr + 1) % 2 ^ 16 })
                  (pass-Progress a s h lt (ground arith)) (omega (arith, enough))))
          | inr other ↦
              rw (skip-other ram fuel d s more other)
                (inl (a + 1, omega arith, write_next-Progress a s h lt))
        ]
  ]

  isr-Leads :
      (fuel a : ℕ) (s : Driver)
      → Progress a s
      → start + len < a + fuel
      → (s' : Driver) × (isr ram fuel s ≡ some s')
        × (((b : ℕ) × (a < b) × Progress b s') ⊎ Written s')
  unfolding isr
  isr-Leads fuel a s h enough =
      let leads = skip-Leads fuel a 0 s h enough in
      elim (Option-cases (skip ram fuel 0 s)) [
        | inl e ↦ absurd (subst (Leads a) e leads)
        | inr ((d, u), e) ↦ (write_next ram d u, rw (e, isr) refl, subst (Leads a) e leads)
      ]

  pub run-Written :
      (fuel k a : ℕ) (s : Driver)
      → len < fuel
      → start + len ≤ a + k
      → Progress a s
      → (t : Driver) × (run ram fuel (suc k) s ≡ some t) × Written t
  unfolding run
  run-Written fuel zero a s f e h =
      let (s', i, leads) = isr-Leads fuel a s h (omega (arith, h.from)) in
      elim leads [
        | inl (b, lt, h') ↦ absurd (omega (arith, h'.to))
        | inr w ↦ (s', run-suc ram fuel 0 s s' h.enabled i, w)
      ]
  run-Written fuel (suc k) a s f e h =
      let (s', i, leads) = isr-Leads fuel a s h (omega (arith, h.from)) in
      elim leads [
        | inl (b, lt, h') ↦
            let (t, r, w) = run-Written fuel k b s' f (omega arith) h' in
            (t, run-suc ram fuel (suc k) s s' h.enabled i ∙ r, w)
        | inr w ↦ (
          s',
          run-suc ram fuel (suc k) s s' h.enabled i ∙ run-disabled ram fuel (suc k) s' w.disabled,
          w,
        )
      ]
