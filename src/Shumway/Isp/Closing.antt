-- ===== src/Shumway/Isp/Closing.antt =====
-- The end of a session: what `SIGNAL_COMM_CLOSE` does while there are bytes in the buffer.
use avr_ha_lib.Prelude.{
  ℕ, zero, suc, ◌+◌, ◌%◌, ◌^◌, ◌<◌, ◌≡◌, refl, ◌∙◌, Bool, true, false, Option, none, some, List, [],
  ◌∷◌, ◌++◌, arith, append-nil, append_assoc, replicate,
}
use avr_ha_lib.Shumway.Memory.{Pointer, load}
use avr_ha_lib.Shumway.Kernel.{Message, set_sender_id, toggle_direction}
use avr_ha_lib.Shumway.Signal
use avr_ha_lib.Shumway.Server.{World, mediate, release, ◌>>=◌}
use avr_ha_lib.Shumway.Isp.{
  Isp, MemoryArea, write_request, write_complete, init_isp, close, receive,
}

module _ (write_refused : MemoryArea → ℕ → List ℕ → Bool) (erase_refused : MemoryArea → Bool)
    (read_buffer : MemoryArea → ℕ → ℕ → Option (List ℕ)) (id : ℕ) where
  abbrev handle : Message → Isp → World → Option (Isp × World)
  handle = receive write_refused erase_refused read_buffer id

  -- A close message, the interrupt that ends the write, and the message again.
  abbrev pub close_twice : Message → Isp → World → Option (Isp × World)
  close_twice m s w = do
    (s', w') ← handle m s w
    let (s'', w'') = write_complete s' w'
    handle m s'' w''

  -- The message handled `n` times.
  abbrev pub handle_again : ℕ → Message → Isp → World → Option (Isp × World)
  handle_again zero m s w = some (s, w)
  handle_again (suc n) m s w = do (s', w') ← handle m s w; handle_again n m s' w'

  module _ (m : Message) (s : Isp) (ptr : Pointer) (bs : List ℕ)
      (closing : m.sig_id ≡ Signal.comm_close) (idle : s.in_progress ≡ false)
      (filled : 0 < s.buffer_fill) (there : s.buffer ≡ some ptr) where
    first :
        (w : World)
        → load ptr 0 s.buffer_fill w.memory ≡ some bs
        → write_refused s.mem_area s.addr bs ≡ false
        → handle m s w
          ≡ some (
            record s {
              in_progress = true;
              requests = s.requests ++ write_request s.mem_area s.addr bs ∷ [];
            },
            mediate m w,
          )
    unfolding receive close init_isp
    first w bytes taken = rw (closing, idle, there, bytes, taken) (ground arith)

    refused :
        (w : World)
        → load ptr 0 s.buffer_fill w.memory ≡ some bs
        → write_refused s.mem_area s.addr bs ≡ true
        → handle m s w ≡ some (record s { in_progress = false }, mediate m w)
    unfolding receive close init_isp
    refused w bytes not_taken = rw (closing, idle, there, bytes, not_taken) (ground arith)

  last :
      (m : Message) (s : Isp) (w : World)
      → m.sig_id ≡ Signal.comm_close
      → s.buffer_fill ≡ 0
      → handle m s w
        ≡ some (
          s,
          mediate
              (toggle_direction (set_sender_id id (record m { sig_id = Signal.comm_closed })))
              w,
        )
  unfolding receive close
  last m s w closing empty = rw (closing, empty) refl

  -- With bytes in the buffer, no write in progress and a driver that takes the write: a close
  -- message, the interrupt that ends the write, and the close message again hand the bytes of the
  -- buffer to the driver at the address, once; move the address behind them (mod 2 ^ 32); give the
  -- buffer's piece back; and send the message on as it came, then as COMM_CLOSED the other way.
  pub close_twice-flushes :
      (m : Message) (s : Isp) (w : World) (ptr : Pointer) (bs : List ℕ)
      → m.sig_id ≡ Signal.comm_close
      → s.in_progress ≡ false
      → 0 < s.buffer_fill
      → s.buffer ≡ some ptr
      → load ptr 0 s.buffer_fill w.memory ≡ some bs
      → write_refused s.mem_area s.addr bs ≡ false
      → close_twice m s w
        ≡ some (
          record s {
            addr = (s.addr + s.buffer_fill) % 2 ^ 32;
            in_progress = false;
            buffer = none;
            buffer_fill = 0;
            requests = s.requests ++ write_request s.mem_area s.addr bs ∷ [];
          },
          mediate
              (toggle_direction (set_sender_id id (record m { sig_id = Signal.comm_closed })))
              (release s.buffer_key (mediate m w)),
        )
  unfolding write_complete
  close_twice-flushes m s w ptr bs closing idle filled there bytes taken =
      rw (first m s ptr bs closing idle filled there w bytes taken) (
        let (s', w') =
          write_complete
            (record s {
              in_progress = true;
              requests = s.requests ++ write_request s.mem_area s.addr bs ∷ [];
            })
            (mediate m w) in
        last m s' w' closing refl)

  -- With bytes in the buffer, no write in progress and a driver that refuses the write: however
  -- often the close message is handled, it is sent on each time as it came, and nothing else happens.
  pub handle_again-refused :
      (m : Message) (s : Isp) (ptr : Pointer) (bs : List ℕ) (n : ℕ) (w : World)
      → m.sig_id ≡ Signal.comm_close
      → s.in_progress ≡ false
      → 0 < s.buffer_fill
      → s.buffer ≡ some ptr
      → load ptr 0 s.buffer_fill w.memory ≡ some bs
      → write_refused s.mem_area s.addr bs ≡ true
      → handle_again n m s w ≡ some (s, record w { sent = w.sent ++ replicate n m })
  handle_again-refused m s ptr bs zero w closing idle filled there bytes not_taken =
      rw (append-nil w.sent) refl
  handle_again-refused m s ptr bs (suc n) w closing idle filled there bytes not_taken =
      rw (refused m s ptr bs closing idle filled there w bytes not_taken, ← idle)
        (handle_again-refused m s ptr bs n (mediate m w) closing idle filled there bytes not_taken
          ∙ rw (append_assoc w.sent (m ∷ []) (replicate n m)) refl)
