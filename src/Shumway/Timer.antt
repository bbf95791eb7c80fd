-- ===== src/Shumway/Timer.antt =====
-- tools/bootloader/legacy/shumway/s_timer/S_Timer.{h,cpp}: the server that announces the start of the
-- application when no session was opened in time.
pub mod Disabling
mod Tests
use avr_ha_lib.Prelude.{ℕ, ◌+◌, ◌%◌, Bool, true, false, ◌==◌, if◌then◌else◌}
use avr_ha_lib.Shumway.Memory.{shm_size}
use avr_ha_lib.Shumway.Kernel.{Message, message, raise_visits, direction_unknown}
use avr_ha_lib.Shumway.Signal
use avr_ha_lib.Shumway.Server.{World, mediate, release}

-- `_cond_cnt`, and whether the timed condition is enabled.
pub record Timer : Type 0 where
  pub cond_cnt : ℕ
  pub enabled : Bool

-- The constructor, with START_CONDITION_TIME.
abbrev pub init : Timer
init = record { cond_cnt = 4; enabled = true }

module _ (id : ℕ) where
  unfoldable pub condition : Timer → World → Timer × World
  condition s w =
      let cnt = (s.cond_cnt + 255) % 256 in
      if cnt == 0
      then (
        record { cond_cnt = cnt; enabled = false },
        mediate (message Signal.timer_out shm_size id direction_unknown) w,
      )
      else (record s { cond_cnt = cnt }, w)

-- `receive`: the first case of the switch has no `break`.
unfoldable pub receive : Message → Timer → World → Timer × World
receive m s w =
    if m.sig_id == Signal.disable_appl_start
    then (record s { enabled = false }, mediate (raise_visits m) (release m.msg_id w))
    else (s, mediate (raise_visits m) w)
