-- ===== src/Shumway/TimerDriver.antt =====
-- tools/bootloader/legacy/shumway/lib/mcu/timer/timer1_drv_can128.{h,cpp} and
-- lib/board/board_drv_ktb_can128.cpp: the driver of timer 1 and the board's condition of time. The
-- registers are numbers, and their bits are read and written by arithmetic. Which callback is
-- registered is a number.
mod Conditions
use avr_ha_lib.Prelude.{
  ℕ, ◌+◌, ◌-◌, ◌*◌, ◌/◌, ◌%◌, ◌^◌, Bool, true, false, Option, none, some, ◌==◌, if◌then◌else◌,
}

pub record Timer : Type 0 where
  pub tccr1a : ℕ
  pub tccr1b : ℕ
  pub icr1 : ℕ
  pub timsk1 : ℕ
  pub cb : Option ℕ

-- CS_256 and MOOP_12.
abbrev pub cs_256 : ℕ
cs_256 = 4

abbrev pub moop_12 : ℕ
moop_12 = 12

unfoldable pub register_input_capture : ℕ → Timer → Bool × Timer
register_input_capture cb s = elim s.cb [
  | none ↦ (false, record s { cb = some cb })
  | some other ↦ (true, s)
]

abbrev pub unregister_input_capture : Timer → Timer
unregister_input_capture s = record s { cb = none }

abbrev pub set_prescaler : ℕ → Timer → Timer
set_prescaler cs s = record s { tccr1b = s.tccr1b - s.tccr1b % 8 + cs % 8 }

-- The mode's bits lie in two registers.
abbrev pub set_mode_of_operation : ℕ → Timer → Timer
set_mode_of_operation mode s = record s {
  tccr1a = s.tccr1a - s.tccr1a % 4 + mode % 4;
  tccr1b = s.tccr1b - s.tccr1b / 8 % 4 * 8 + mode / 4 % 4 * 8;
}

abbrev pub disable_output_compare_all : Timer → Timer
disable_output_compare_all s = record s { tccr1a = s.tccr1a % 4 }

abbrev pub enable : ℕ → ℕ → Timer → Timer
enable cs mode s = set_mode_of_operation mode (set_prescaler cs (disable_output_compare_all s))

abbrev pub set_input_capture_val : ℕ → Timer → Timer
set_input_capture_val value s = record s { icr1 = value % 2 ^ 16 }

abbrev pub enable_input_capture_irq : Timer → Timer
enable_input_capture_irq s = record s {
  timsk1 = if (s.timsk1 / 2 ^ 5 % 2) == 1 then s.timsk1 else s.timsk1 + 2 ^ 5;
}

abbrev pub disable_input_capture_irq : Timer → Timer
disable_input_capture_irq s = record s {
  timsk1 = if (s.timsk1 / 2 ^ 5 % 2) == 1 then s.timsk1 - 2 ^ 5 else s.timsk1;
}

-- The resolution is not used.
unfoldable pub enable_timed_condition : ℕ → ℕ → Timer → Bool × Timer
enable_timed_condition cb res s =
    let (rc, s') =
      register_input_capture cb (enable cs_256 moop_12 (set_input_capture_val 62500 s)) in
    (rc, enable_input_capture_irq s')

unfoldable pub disable_timed_condition : Timer → Timer
disable_timed_condition s = unregister_input_capture (disable_input_capture_irq s)
