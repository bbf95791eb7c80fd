-- ===== src/Shumway/Id.antt =====
-- tools/bootloader/legacy/shumway/s_id/S_Id.{h,cpp}: the server that opens and closes a session.
pub mod Session
mod Tests
use avr_ha_lib.Prelude.{
  ℕ, ◌+◌, ◌-◌, ◌%◌, ◌^◌, Bool, true, false, not, Option, none, some, List, [], ◌∷◌, ◌==◌, ltb,
  if◌then◌else◌, get_or,
}
use avr_ha_lib.Shumway.Memory.{Pointer, load, store, attach, ctl_offset}
use avr_ha_lib.Shumway.Kernel.{
  Message, message, set_sender_id, toggle_direction, raise_visits, direction_up, direction_unknown,
}
use avr_ha_lib.Shumway.Signal
use avr_ha_lib.Shumway.Action
use avr_ha_lib.Shumway.Reply
use avr_ha_lib.Shumway.Server.{header_size, World, mediate, release, acknowledge, ◌>>=◌}

-- The members of `S_Id`, and whether the application has been started.
pub record IdState : Type 0 where
  pub is_open : Bool
  pub ack_action : ℕ
  pub started : Bool

abbrev pub init : IdState
init = record { is_open = false; ack_action = Action.invalid; started = false }

-- The size of the identifier in front of the length and the action.
abbrev pub id_size : ℕ
id_size = 4

module _ (id : ℕ) where
  -- Acknowledge the last action, and forget it.
  unfoldable pub settle : ℕ → IdState → World → Option (IdState × World)
  settle reply s w = do
    w' ← acknowledge s.ack_action reply Signal.id_out id w
    some (record s { ack_action = Action.invalid }, w')

  -- The session has ended: acknowledge, and announce the start of the application.
  unfoldable pub finish : Message → IdState → World → Option (IdState × World)
  finish m s w = do
    (s', w') ← settle Reply.ok s w
    some (
      s',
      mediate (set_sender_id id (record m { sig_id = Signal.appl_start; dir = direction_unknown }))
          w',
    )

  -- A message of its own that came back.
  unfoldable pub receive_own : Message → IdState → World → Option (IdState × World)
  receive_own m s w =
      if m.sig_id == Signal.comm_close
      then finish m s w
      else if m.sig_id == Signal.appl_start
      then some (record s { started = true }, w)
      else if not (s.ack_action == Action.invalid)
      then (do (s', w') ← settle Reply.error s w; some (s', release m.msg_id w'))
      else some (s, release m.msg_id w)

  -- The switch on the action of SIGNAL_PHY_IN; `len` is the byte of the length.
  unfoldable pub perform : ℕ → ℕ → Pointer → Message → IdState → World → Option (IdState × World)
  perform action len ptr m s w =
      let trash = some (s, release m.msg_id w) in
      if action == Action.select_open
      then (if s.is_open
          then trash
          else some (
            record s { ack_action = Action.select_open },
            mediate
                (toggle_direction
                  (set_sender_id id (record m { sig_id = Signal.enable_id_filter })))
                w,
          ))
      else if action == Action.select_close
      then (if s.is_open
          then some (
            record s { ack_action = Action.select_close },
            mediate
                (record (set_sender_id id (record m { sig_id = Signal.comm_close })) {
                  dir = direction_up;
                })
                w,
          )
          else trash)
      else if s.is_open
      then (do
        shortened ←
            store ptr id_size (((len + 256 - id_size) % 256) ∷ [])
              (ctl_offset m.msg_id id_size w.memory).1
        some (
          s,
          mediate (set_sender_id id (record m { sig_id = Signal.id_in }))
              (record w { memory = shortened }),
        ))
      else trash

  -- SIGNAL_PHY_IN; the check of the length is in `size_t`.
  unfoldable pub phy_in : Option Pointer → Message → IdState → World → Option (IdState × World)
  phy_in mem m s w = do
    ptr ← mem
    size ← load ptr id_size 1 w.memory
    let len = get_or size 0 0
    (if ltb ((len + 2 ^ 16 - id_size) % 2 ^ 16) header_size
        then some (s, release m.msg_id w)
        else if not (s.ack_action == Action.invalid)
        then some (s, mediate m w)
        else do
          action ← load ptr (id_size + 1) 1 w.memory
          perform (get_or action 0 0) len ptr m s w)

  -- SIGNAL_ID_FILTER_ENABLED
  unfoldable pub filter_enabled : Message → IdState → World → Option (IdState × World)
  filter_enabled m s w =
      settle Reply.ok (record s { is_open = true })
        (mediate (message Signal.disable_appl_start m.msg_id id direction_unknown) w)

  unfoldable pub receive : Message → IdState → World → Option (IdState × World)
  receive m s w =
      if m.sender_id == id
      then receive_own m s w
      else if m.sig_id == Signal.phy_in
      then phy_in (attach m.msg_id w.memory) m s w
      else if m.sig_id == Signal.comm_closed
      then finish m s w
      else if m.sig_id == Signal.id_filter_enabled
      then filter_enabled m s w
      else if m.sig_id == Signal.timer_out
      then some (s, mediate (message Signal.appl_start m.msg_id id direction_unknown) w)
      else some (s, mediate (raise_visits m) w)
