-- ===== src/DeviceFrame/Tests.antt =====
-- The theorems on message framing at concrete messages, and runs of both classes.
use avr_ha_lib.Prelude.{
  ℕ, ◌≡◌, refl, ◌++◌, none, some, List, [], ◌∷◌, arith, true, false, length, inr, replicate, All,
  ◌≤◌, ◌<◌,
}
use avr_ha_lib.CFrame.{
  readable, ascii, is_control, fresh, sending, receiving, tx_complete, transform_in, transform_out,
  again, start_frame, end_frame, restarted, finished, reset_rx, reset_tx, ready_to_start,
}
use avr_ha_lib.CFrame.Frame.{encode, frame, readable-IsValid, readable-HidesMarks, Unmarked}
use avr_ha_lib.DeviceFrame.Polled
use avr_ha_lib.DeviceFrame.Polled.{Call, put}
use avr_ha_lib.DeviceFrame.Polled.Send.{send-line, line, paced, bytes}
use avr_ha_lib.DeviceFrame.Polled.Exchange.{send-recv, send-Unmarked}
use avr_ha_lib.DeviceFrame.Polled.Receive.{recv-frame, recv-oversize, recv-truncated, recv-bound}
use avr_ha_lib.DeviceFrame.Driven.{
  Device, Setup, call, init, send, recv, arrive, put_on_ready, ready_interrupts,
}
use avr_ha_lib.DeviceFrame.Driven.Transmit.{send-interrupts, send-replaces, put_on_ready_complete}
use avr_ha_lib.DeviceFrame.Driven.Reception.{arrive-recv, arrive-overflow}

-- "see": both letters that mark the frame are escaped.
abbrev see : List ℕ
see = b's' ∷ b'e' ∷ b'e' ∷ []

abbrev see_rest : List ℕ
see_rest = b'e' ∷ b'S' ∷ b'e' ∷ b'E' ∷ b'e' ∷ b'E' ∷ b's' ∷ []

abbrev see_line : List ℕ
see_line = b'a' ∷ see_rest

frame-see : frame readable see ≡ see_line
unfolding encode
frame-see = refl

send-see : Polled.send readable 2 see ≡ some (3, put b'a' ∷ paced see_rest)
unfolding Polled.send Polled.put_all Polled.put_byte transform_out again start_frame end_frame
send-see = refl

recv-see : Polled.recv readable 3 (7 ∷ (see_line ++ 9 ∷ [])) ≡ some (see, 9 ∷ [])
unfolding Polled.recv Polled.recv_loop Polled.receive transform_in restarted finished reset_rx
recv-see = refl

send-line_example : Polled.send readable 2 see ≡ some (3, line readable see)
send-line_example = send-line readable 0 see

send-recv_example :
    (calls : List Call) × (Polled.send readable 2 see ≡ some (3, calls))
    × (Polled.recv readable 3 ((7 ∷ []) ++ (bytes calls ++ 9 ∷ [])) ≡ some (see, 9 ∷ []))
send-recv_example =
    send-recv readable-IsValid 0 3 (7 ∷ []) see (9 ∷ []) (λ e. cc) (omega arith) (omega arith)
      (omega arith)

ascii_marks :
    (calls : List Call) × (between : List ℕ) × (Polled.send ascii 2 see ≡ some (3, calls))
    × (bytes calls ≡ ascii.sofr ∷ (between ++ ascii.eofr ∷ []))
    × All (Unmarked ascii) between
ascii_marks = send-Unmarked ascii 0 see (inr (inr refl)) (λ e. cc)

-- A byte from 128 on is a negative character, so it is escaped for no mark.
negative : is_control (record readable { esc = 200 }) 200 ≡ false
negative = refl

recv-frame_example :
    Polled.recv readable 3 ((7 ∷ []) ++ (frame readable see ++ 9 ∷ [])) ≡ some (see, 9 ∷ [])
recv-frame_example =
    recv-frame readable-IsValid 3 (7 ∷ []) see (9 ∷ []) (omega arith) (omega arith) (omega arith)

recv-oversize_example :
    Polled.recv readable 2 (frame readable see ++ frame readable (1 ∷ []))
    ≡ Polled.recv readable 2 (frame readable (1 ∷ []))
recv-oversize_example =
    recv-oversize readable-IsValid 2 readable-HidesMarks see (frame readable (1 ∷ [])) (omega arith)
      (omega arith)

recv-truncated_example :
    Polled.recv readable 3 (b'a' ∷ (encode readable (1 ∷ 2 ∷ []) ++ (frame readable see ++ [])))
    ≡ some (see, [])
recv-truncated_example =
    recv-truncated readable-IsValid 3 (1 ∷ 2 ∷ []) see [] (omega arith) (omega arith) (omega arith)
      (omega arith)

recv-bound_example : length see ≤ 3
unfolding Polled.recv Polled.recv_loop Polled.receive transform_in restarted finished reset_rx
recv-bound_example = recv-bound readable 3 see_line refl

-- Messages of up to four bytes, with one byte for their size and no delegate bound.
abbrev small : Setup
small = record { stuffing = readable; pl = 4; flt = 256; on_ready = none; on_receive = none }

abbrev zeros : List ℕ
zeros = replicate 4 0

abbrev device : Device
device = record {
  recv_mob = record { position = 0; size = 0; payload = zeros };
  send_mob = record { position = 0; size = 0; payload = zeros };
  cframe = fresh;
  out = [];
  ready_on = false;
}

device-init : init zeros zeros ≡ device
unfolding init
device-init = refl

send-interrupts_example :
    (q e : Device) × (send small see device ≡ some (3, q))
    × (ready_interrupts small (length (frame readable see)) q ≡ some e)
    × (e.out ≡ [] ++ frame readable see)
    × (tx_complete e.cframe ≡ true)
    × (e.ready_on ≡ true)
unfolding sending
send-interrupts_example =
    send-interrupts small see device (λ e. cc) refl (omega arith) (omega arith)

abbrev sent : Device
sent = record device {
  cframe = record { tx = avr_ha_lib.CFrame.State.fine; rx = avr_ha_lib.CFrame.State.invalid };
}

put_on_ready-sent : put_on_ready small sent ≡ some (call none (record sent { ready_on = false }))
unfolding tx_complete
put_on_ready-sent = put_on_ready_complete small sent refl

replaced :
    (d₁ d₂ e : Device) × (send small (1 ∷ []) device ≡ some (1, d₁))
    × (send small see d₁ ≡ some (3, d₂))
    × (ready_interrupts small (length (frame readable see)) d₂ ≡ some e)
    × (e.out ≡ [] ++ frame readable see)
    × (tx_complete e.cframe ≡ true)
unfolding sending
replaced =
    send-replaces small (1 ∷ []) see device (λ e. cc) refl (omega arith) (omega arith) (omega arith)

arrive-recv_example :
    (e : Device) × (arrive small (frame readable see) device ≡ some (call none e))
    × ((size : ℕ) → 3 ≤ size → (recv small size e).0 ≡ see)
    × ((size : ℕ) → 3 ≤ size → receiving (recv small size e).1.cframe ≡ false)
    × ((size : ℕ) → size < 3 → recv small size e ≡ ([], e))
unfolding receiving
arrive-recv_example =
    arrive-recv small readable-IsValid see device (omega arith) refl (omega arith) (omega arith)
      (omega arith)

-- Five bytes for an array of four.
arrive-overflow_example : arrive small (frame readable (1 ∷ 2 ∷ see)) device ≡ none
unfolding receiving
arrive-overflow_example =
    arrive-overflow small readable-IsValid (1 ∷ 2 ∷ see) device (omega arith) refl (omega arith)
      (omega arith) (omega arith)
