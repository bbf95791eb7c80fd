-- ===== src/Shumway/Kernel/Tests.antt =====
-- The theorems on the kernel at four servers and a queue of twenty messages.
use avr_ha_lib.Prelude.{ℕ, ◌≡◌, ◌<◌, refl, some, List, [], ◌∷◌, arith, replicate}
use avr_ha_lib.Shumway.Queue.{Queue, init}
use avr_ha_lib.Shumway.Queue.Refine.{IsValid, contents}
use avr_ha_lib.Shumway.Kernel.{
  direction_unknown, direction_up, Message, message, receiver, send_all, max_signal_num,
}
use avr_ha_lib.Shumway.Kernel.Dispatch.{Addressed, receiver-trip}
use avr_ha_lib.Shumway.Kernel.Sending.{kept, send_all-kept}

abbrev at_visit : ℕ → Message
at_visit v = record (message 8 5 1 direction_unknown) { visits = v }

-- The server 2 is met twice.
trip :
    receiver 4 (at_visit 0)
      ∷ receiver 4 (at_visit 1)
      ∷ receiver 4 (at_visit 2)
      ∷ receiver 4 (at_visit 3)
      ∷ receiver 4 (at_visit 4)
      ∷ []
    ≡ some 0 ∷ some 2 ∷ some 2 ∷ some 3 ∷ some 1 ∷ []
unfolding receiver
trip = refl

receiver-trip_example :
    (receiver 4 (at_visit 4) ≡ some 1)
    × ((v j : ℕ)
        → v < 128
        → receiver 4 (at_visit v) ≡ some 1
        → j < 4
        → Addressed direction_unknown 1 j
        → (u : ℕ) × (u < v) × (receiver 4 (at_visit u) ≡ some j))
receiver-trip_example = receiver-trip 4 1 (omega arith) (omega arith) 8 5 direction_unknown

abbrev start : Message
start = message 2 0 0 direction_up

-- The queue of the kernel with 18 messages.
abbrev waiting : Queue Message
waiting = record (init (replicate 20 start)) { fill = 18; back = 18 }

waiting-IsValid : IsValid max_signal_num waiting
unfolding init
waiting-IsValid = record {
  byte = omega arith;
  storage = refl;
  front_in = omega arith;
  fill_in = omega arith;
  behind = refl;
  no_reader = refl;
  no_writer = refl;
}

abbrev three : List Message
three = start ∷ at_visit 0 ∷ at_visit 1 ∷ []

send_all-kept_example :
    (contents max_signal_num (send_all three waiting)
      ≡ kept (contents max_signal_num waiting) three)
    × IsValid max_signal_num (send_all three waiting)
send_all-kept_example = send_all-kept three waiting waiting-IsValid
