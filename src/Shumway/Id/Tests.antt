-- ===== src/Shumway/Id/Tests.antt =====
-- The theorems on sessions at a message in the piece 9.
use avr_ha_lib.Prelude.{◌≡◌, ◌++◌, refl, true, false, some, List, [], ◌∷◌, arith, replicate, All}
use avr_ha_lib.Shumway.Memory.{Handle, new_handle, lock, Pointer, attach, load}
use avr_ha_lib.Shumway.Kernel.{Message, message, direction_up}
use avr_ha_lib.Shumway.Signal
use avr_ha_lib.Shumway.Server.{World, mediate}
use avr_ha_lib.Shumway.Id.{init, receive}
use avr_ha_lib.Shumway.Id.Session.{
  filter_request, receive-closed, announced, receive_both, receive_both-opens,
}
use avr_ha_lib.Shumway.Server.Acknowledging.{Acknowledged}
use avr_ha_lib.Shumway.Memory.Intact.{IsIntact}

-- The length 6, then the action 1.
abbrev pieces : List Handle
pieces =
    replicate 9 (new_handle (replicate 255 0))
    ++ lock (new_handle (replicate 4 0 ++ 6 ∷ 1 ∷ replicate 249 0)) ∷ []

abbrev world : World
world = record { memory = pieces; sent = [] }

abbrev ptr : Pointer
ptr = record { block = 9; at = 0 }

abbrev request : Message
request = message Signal.phy_in 9 0 direction_up

abbrev answer : Message
answer = message Signal.id_filter_enabled 9 0 direction_up

world-IsIntact : All IsIntact pieces
world-IsIntact = omega arith

attached : attach 9 pieces ≡ some ptr
unfolding attach
attached = refl

length_byte : load ptr 4 1 pieces ≡ some (6 ∷ [])
unfolding load
length_byte = refl

action_byte : load ptr 5 1 pieces ≡ some (1 ∷ [])
unfolding load
action_byte = refl

receive-closed_example :
    receive 1 request init world
    ≡ some (record init { ack_action = 1 }, mediate (filter_request 1 request) world)
receive-closed_example =
    receive-closed 1 request init world ptr 6 1 (λ e. absurd (omega (arith, e))) refl refl refl
      attached length_byte action_byte (omega arith) (omega arith)

receive_both-opens_example :
    (w' : World) × (receive_both 1 request answer init world
      ≡ some (record { is_open = true; ack_action = 0; started = false }, w'))
    × Acknowledged 1 1 Signal.id_out 1 (announced 1 request answer world) w'
receive_both-opens_example =
    receive_both-opens 1 request answer init world ptr 6 (λ e. absurd (omega (arith, e))) refl refl
      refl attached length_byte action_byte (omega arith) (omega arith)
      (λ e. absurd (omega (arith, e))) refl world-IsIntact refl
