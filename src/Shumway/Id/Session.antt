-- ===== src/Shumway/Id/Session.antt =====
-- How a session opens, and what comes of messages before that.
use avr_ha_lib.Prelude.{
  All, length, ◌∙◌, refl, ℕ, ◌≤◌, ◌<◌, ◌≡◌, ◌≢◌, true, false, Option, some, [], ◌∷◌, ◌==◌,
  if◌then◌else◌, arith,
}
use avr_ha_lib.Shumway.Memory.{Pointer, load, attach}
use avr_ha_lib.Shumway.Kernel.{Message, message, set_sender_id, toggle_direction, direction_unknown}
use avr_ha_lib.Shumway.Signal
use avr_ha_lib.Shumway.Action
use avr_ha_lib.Shumway.Reply
use avr_ha_lib.Shumway.Memory.{shm_num}
use avr_ha_lib.Shumway.Memory.Intact.{IsIntact}
use avr_ha_lib.Shumway.Server.Acknowledging.{Acknowledged, acknowledge-Acknowledged}
use avr_ha_lib.Shumway.Server.{World, mediate, release, acknowledge, ◌>>=◌}
use avr_ha_lib.Shumway.Id.{IdState, receive, phy_in, perform, filter_enabled, settle}

-- The message asks for the filter, back where it came from.
abbrev pub filter_request : ℕ → Message → Message
filter_request id m =
    toggle_direction (set_sender_id id (record m { sig_id = Signal.enable_id_filter }))

module _ (id : ℕ) where
  -- While no session is open and nothing waits for its acknowledgement, a message from the physical
  -- interface that holds an action is dropped and its piece freed, unless the action opens a session:
  -- then it goes back down as the request to filter, and the acknowledgement waits.
  pub receive-closed :
      (m : Message) (s : IdState) (w : World) (ptr : Pointer) (len action : ℕ)
      → m.sender_id ≢ id
      → m.sig_id ≡ Signal.phy_in
      → s.is_open ≡ false
      → s.ack_action ≡ Action.invalid
      → attach m.msg_id w.memory ≡ some ptr
      → load ptr 4 1 w.memory ≡ some (len ∷ [])
      → load ptr 5 1 w.memory ≡ some (action ∷ [])
      → 6 ≤ len
      → len < 256
      → receive id m s w
        ≡ some (
            if action == Action.select_open
            then (record s { ack_action = Action.select_open }, mediate (filter_request id m) w)
            else (s, release m.msg_id w))
  unfolding receive phy_in perform
  receive-closed m s w ptr len action other phy closed free there at_len at_action long byte =
      rw (phy, there, at_len) (ground arith)

  opened :
      (m : Message) (s : IdState) (w : World)
      → m.sender_id ≢ id
      → m.sig_id ≡ Signal.id_filter_enabled
      → receive id m s w ≡ (
          acknowledge s.ack_action Reply.ok Signal.id_out id
            (mediate (message Signal.disable_appl_start m.msg_id id direction_unknown) w)
          >>= λ w'. some (record s { is_open = true; ack_action = Action.invalid }, w'))
  unfolding receive filter_enabled settle
  opened m s w other on = rw on (ground arith)

  -- The world once the request to filter and the message that stops the automatic start are sent.
  abbrev pub announced : Message → Message → World → World
  announced m m' w =
      mediate (message Signal.disable_appl_start m'.msg_id id direction_unknown)
        (mediate (filter_request id m) w)

  -- A message from the physical interface, and then one that says that the filter is enabled.
  abbrev pub receive_both : Message → Message → IdState → World → Option (IdState × World)
  receive_both m m' s w = do (s', w') ← receive id m s w; receive id m' s' w'

  -- While the pieces of the shared memory are intact, no session is open and nothing waits for its
  -- acknowledgement: a message from the physical interface that asks to open a session, and then the answer
  -- that the filter is enabled, neither of them from this server, end with the session open and nothing
  -- that waits any more. The request to filter and the message that stops the automatic start are sent, in
  -- this order; and unless no piece has the room for it, a third message, behind whose key lie the action
  -- that opens a session and the reply that all went well.
  pub receive_both-opens :
      (m m' : Message) (s : IdState) (w : World) (ptr : Pointer) (len : ℕ)
      → m.sender_id ≢ id
      → m.sig_id ≡ Signal.phy_in
      → s.is_open ≡ false
      → s.ack_action ≡ Action.invalid
      → attach m.msg_id w.memory ≡ some ptr
      → load ptr 4 1 w.memory ≡ some (len ∷ [])
      → load ptr 5 1 w.memory ≡ some (Action.select_open ∷ [])
      → 6 ≤ len
      → len < 256
      → m'.sender_id ≢ id
      → m'.sig_id ≡ Signal.id_filter_enabled
      → All IsIntact w.memory
      → length w.memory ≡ shm_num
      → (w' : World) × (receive_both m m' s w
          ≡ some (record s { is_open = true; ack_action = Action.invalid }, w'))
        × Acknowledged Action.select_open Reply.ok Signal.id_out id (announced m m' w) w'
  receive_both-opens m m' s w ptr len other phy closed idle there at_len at_action long byte other'
        on all ten =
      let (w', ends, outcome) =
        acknowledge-Acknowledged Action.select_open Reply.ok Signal.id_out id (announced m m' w) all
          ten in
      (
        w',
        rw (receive-closed m s w ptr len 1 other phy closed idle there at_len at_action long byte) (
            opened m' (record s { ack_action = 1 }) (mediate (filter_request id m) w) other' on
            ∙ rw ends refl),
        outcome,
      )
