-- ===== src/Shumway/Timer/Tests.antt =====
-- The theorems on the timer at a memory of ten pieces, of which the piece 9 holds the message.
use avr_ha_lib.Prelude.{◌≡◌, refl, true, false, some, none, List, [], ◌∷◌, ◌++◌, arith, replicate}
use avr_ha_lib.Shumway.Memory.{Handle, new_handle, lock, get, attach, free, scan, room}
use avr_ha_lib.Shumway.Kernel.{Message, message, raise_visits, direction_unknown}
use avr_ha_lib.Shumway.Signal
use avr_ha_lib.Shumway.Server.{World, mediate, release}
use avr_ha_lib.Shumway.Id.{IdState}
use avr_ha_lib.Shumway.Id
use avr_ha_lib.Shumway.Timer.{init, receive}
use avr_ha_lib.Shumway.Timer.Disabling.{conditions, conditions-fire, receive-frees_twice}

abbrev pieces : List Handle
pieces = replicate 9 (new_handle (replicate 255 0)) ++ lock (new_handle (replicate 255 0)) ∷ []

abbrev world : World
world = record { memory = pieces; sent = [] }

conditions-fire_four :
    (conditions 3 3 init world ≡ (record { cond_cnt = 1; enabled = true }, world))
    × (conditions 3 4 init world ≡ (
      record { cond_cnt = 0; enabled = false },
      mediate (message Signal.timer_out 255 3 direction_unknown) world,
    ))
conditions-fire_four = conditions-fire 3 3 true world (omega arith)

abbrev stop : Message
stop = message Signal.disable_appl_start 9 1 direction_unknown

abbrev open_state : IdState
open_state = record { is_open = true; ack_action = 0; started = false }

-- The piece is asked for again at once.
taken_again : get 255 (free 9 pieces).1 ≡ (false, some 9, pieces)
unfolding get scan room free
taken_again = refl

freed_twice :
    let (t', w') = receive stop init world in
    (w' ≡ mediate (raise_visits stop) (release 9 world))
    × (Id.receive 1 (raise_visits stop) open_state (record w' { memory = pieces })
        ≡ some (open_state, release 9 (record w' { memory = pieces })))
    × (attach 9 (free 9 pieces).1 ≡ none)
freed_twice =
    receive-frees_twice 1 255 stop init open_state world pieces refl refl (omega arith) refl
      taken_again
