-- ===== src/Shumway/Isp/Tests.antt =====
-- The theorems on the programming server with three bytes in its buffer, the piece 9.
use avr_ha_lib.Prelude.{
  ℕ, ◌≡◌, refl, true, false, some, none, Option, List, [], ◌∷◌, ◌++◌, ◌+◌, ◌^◌, arith, replicate,
  Bool,
}
use avr_ha_lib.Shumway.Memory.{Handle, new_handle, lock, load}
use avr_ha_lib.Shumway.Kernel.{Message, message, direction_up, set_sender_id, toggle_direction}
use avr_ha_lib.Shumway.Signal
use avr_ha_lib.Shumway.Server.{World, mediate, release}
use avr_ha_lib.Shumway.Isp.{Isp, MemoryArea, flash, init, write_request}
use avr_ha_lib.Shumway.Isp.Closing.{
  close_twice, close_twice-flushes, handle_again, handle_again-refused,
}

abbrev pieces : List Handle
pieces =
    replicate 9 (new_handle (replicate 255 0))
    ++ lock (new_handle (7 ∷ 8 ∷ 9 ∷ replicate 252 0)) ∷ []

abbrev world : World
world = record { memory = pieces; sent = [] }

abbrev buffered : Isp
buffered = record (init 9 255) {
  addr = 2 ^ 16;
  buffer = some (record { block = 9; at = 0 });
  buffer_fill = 3;
}

abbrev closing : Message
closing = message Signal.comm_close 4 1 direction_up

abbrev takes : MemoryArea → ℕ → List ℕ → Bool
takes area addr bs = false

abbrev refuses : MemoryArea → ℕ → List ℕ → Bool
refuses area addr bs = true

abbrev no_erase : MemoryArea → Bool
no_erase area = true

abbrev reads : MemoryArea → ℕ → ℕ → Option (List ℕ)
reads area addr n = some (replicate n 0xff)

held : load (record { block = 9; at = 0 }) 0 3 pieces ≡ some (7 ∷ 8 ∷ 9 ∷ [])
unfolding load
held = refl

close_twice-flushes_example :
    close_twice takes no_erase reads 2 closing buffered world
    ≡ some (
      record buffered {
        addr = 2 ^ 16 + 3;
        in_progress = false;
        buffer = none;
        buffer_fill = 0;
        requests = write_request flash (2 ^ 16) (7 ∷ 8 ∷ 9 ∷ []) ∷ [];
      },
      mediate
          (toggle_direction (set_sender_id 2 (record closing { sig_id = Signal.comm_closed })))
          (release 9 (mediate closing world)),
    )
close_twice-flushes_example =
    close_twice-flushes takes no_erase reads 2 closing buffered world (record { block = 9; at = 0 })
      (7 ∷ 8 ∷ 9 ∷ []) refl refl (omega arith) refl held refl

refused_again :
    handle_again refuses no_erase reads 2 5 closing buffered world
    ≡ some (buffered, record world { sent = replicate 5 closing })
refused_again =
    handle_again-refused refuses no_erase reads 2 closing buffered (record { block = 9; at = 0 })
      (7 ∷ 8 ∷ 9 ∷ []) 5 world refl refl (omega arith) refl held refl
