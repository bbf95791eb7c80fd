-- ===== src/Shumway/EepromDriver/Writing.antt =====
-- What the EEPROM driver leaves in the memory.
use avr_ha_lib.Prelude.{
  ℕ, suc, ◌+◌, ◌^◌, ◌<◌, ◌≡◌, refl, ◌∙◌, Bool, true, false, not, some, leb, if◌then◌else◌, arith,
  if_cases,
}
use avr_ha_lib.Shumway.Image.{patched}
use avr_ha_lib.Shumway.EepromDriver.{
  Driver, blank_byte, e2_end, run, full_erase_async, write_buffer_async,
}
use avr_ha_lib.Shumway.EepromDriver.Progress.{Progress, run-Written}

module _ (ram : ℕ → ℕ) (fuel : ℕ) where
  -- What a run comes to that begins with nothing written.
  begun :
      (start len buffer : ℕ) (erase : Bool) (memory : ℕ → ℕ) (s : Driver)
      → len < fuel
      → Progress ram start len buffer erase memory s.calls start s
      → (t : Driver) × (run ram fuel (suc len) s ≡ some t)
        × (t.cb ≡ false)
        × (t.eerie ≡ false)
        × (t.calls ≡ s.calls + 1)
        × ((x : ℕ)
            → t.memory x
              ≡ patched start len (λ i. if erase then blank_byte else ram (buffer + i)) memory x)
  begun start len buffer erase memory s enough h =
      let (t, r, w) =
        run-Written ram start len buffer erase memory s.calls fuel len start s enough (omega arith)
          h in
      (t, r, w.released, w.disabled, w.called, w.content)

  pub write_buffer_async-stored :
      (addr buffer len : ℕ) (s : Driver)
      → s.cb ≡ false
      → 0 < addr + len
      → addr + len < 2 ^ 16
      → len < fuel
      → let (refused, s') = write_buffer_async addr buffer len true s in
        (refused ≡ false)
        × ((t : Driver) × (run ram fuel (suc len) s' ≡ some t)
            × (t.cb ≡ false)
            × (t.eerie ≡ false)
            × (t.calls ≡ s.calls + 1)
            × ((x : ℕ) → t.memory x ≡ patched addr len (λ i. ram (buffer + i)) s.memory x))
  write_buffer_async-stored addr buffer len s free some_bytes limit enough =
      if_cases
        (λ (r : Bool × Driver).
          (r.0 ≡ false)
          × ((t : Driver) × (run ram fuel (suc len) r.1 ≡ some t)
              × (t.cb ≡ false)
              × (t.eerie ≡ false)
              × (t.calls ≡ s.calls + 1)
              × ((x : ℕ) → t.memory x ≡ patched addr len (λ i. ram (buffer + i)) s.memory x)))
        (not s.cb)
        (λ _. (
          refl,
          begun addr len buffer false s.memory
              (write_buffer_async addr buffer len true (record s { cb = false })).1 enough
              (record {
                at = refl;
                from = omega arith;
                to = omega arith;
                dest = omega (arith, some_bytes, limit);
                limit = limit;
                mode = refl;
                taken = λ _. omega arith;
                registered = refl;
                enabled = refl;
                called = refl;
                content = λ x. ground arith;
              }),
        ))
        (λ busy. absurd (ground arith))

  -- The EEPROM driver, the callback not registered, takes the request to erase. After an interrupt for
  -- each byte of the EEPROM and one more, or however few of them it needs, it has called the callback
  -- once and is free again, and the EEPROM's bytes are 0xff. Fuel for the loop in an interrupt: more
  -- than the EEPROM has bytes.
  pub full_erase_async-blank :
      (s : Driver)
      → s.cb ≡ false
      → e2_end + 1 < fuel
      → let (refused, s') = full_erase_async true s in
        (refused ≡ false)
        × ((t : Driver) × (run ram fuel (suc (e2_end + 1)) s' ≡ some t)
            × (t.cb ≡ false)
            × (t.eerie ≡ false)
            × (t.calls ≡ s.calls + 1)
            × ((x : ℕ) → t.memory x ≡ (if leb x e2_end then blank_byte else s.memory x)))
  full_erase_async-blank s free enough =
      if_cases
        (λ (r : Bool × Driver).
          (r.0 ≡ false)
          × ((t : Driver) × (run ram fuel (suc (e2_end + 1)) r.1 ≡ some t)
              × (t.cb ≡ false)
              × (t.eerie ≡ false)
              × (t.calls ≡ s.calls + 1)
              × ((x : ℕ) → t.memory x ≡ (if leb x e2_end then blank_byte else s.memory x))))
        (not s.cb)
        (λ _.
          let (t, r, free', off, called, content) =
            begun 0 (e2_end + 1) 0 true s.memory (full_erase_async true (record s { cb = false })).1
              enough
              (record {
                at = refl;
                from = omega arith;
                to = omega arith;
                dest = refl;
                limit = omega arith;
                mode = refl;
                taken = λ e. absurd (cc);
                registered = refl;
                enabled = refl;
                called = refl;
                content = λ x. ground arith;
              }) in
          (refl, (t, r, free', off, called, λ x. content x ∙ ground arith)))
        (λ busy. absurd (ground arith))
