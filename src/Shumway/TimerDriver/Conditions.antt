-- ===== src/Shumway/TimerDriver/Conditions.antt =====
-- The registers while the condition of time is enabled.
use avr_ha_lib.Prelude.{ℕ, ◌+◌, ◌*◌, ◌/◌, ◌%◌, ◌^◌, ◌≡◌, arith}
use avr_ha_lib.Shumway.TimerDriver.{
  Timer, cs_256, moop_12, register_input_capture, enable, set_input_capture_val,
  enable_timed_condition,
}

-- The prescaler and the mode that the registers hold.
abbrev prescaler_of : Timer → ℕ
prescaler_of s = s.tccr1b % 8

abbrev mode_of : Timer → ℕ
mode_of s = s.tccr1a % 4 + s.tccr1b / 8 % 4 * 4

abbrev rearmed : Timer → Timer
rearmed s = enable cs_256 moop_12 (set_input_capture_val 62500 s)

register_kept :
    (cb : ℕ) (s : Timer)
    → let s' = (register_input_capture cb s).1 in
      (s'.tccr1a ≡ s.tccr1a) × (s'.tccr1b ≡ s.tccr1b) × (s'.icr1 ≡ s.icr1) × (s'.timsk1 ≡ s.timsk1)
unfolding register_input_capture
register_kept cb s = ground arith

-- Whatever the registers held and whatever resolution is asked for, the condition runs timer 1 with
-- the prescaler 256 in the mode 12 up to 62500, its interrupt enabled, no output compare pin
-- connected, and the two bits of the noise canceller and the edge as before.
pub enable_timed_condition-registers :
    (cb res : ℕ) (s : Timer)
    → let s' = (enable_timed_condition cb res s).1 in
      (prescaler_of s' ≡ cs_256)
      × (mode_of s' ≡ moop_12)
      × (s'.icr1 ≡ 62500)
      × (s'.timsk1 / 2 ^ 5 % 2 ≡ 1)
      × (s'.tccr1a / 4 ≡ 0)
      × (s'.tccr1b / 32 ≡ s.tccr1b / 32)
unfolding enable_timed_condition
enable_timed_condition-registers cb res s =
    let (a, b, i, t) = register_kept cb (rearmed s) in
    (
      omega (arith, b),
      omega (arith, a, b),
      i,
      ground (arith, t),
      omega (arith, a),
      omega (arith, b),
    )
