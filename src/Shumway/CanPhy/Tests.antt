-- ===== src/Shumway/CanPhy/Tests.antt =====
-- Messages out of the CAN port and into it.
use avr_ha_lib.Prelude.{
  ℕ, zero, suc, ◌≡◌, refl, inr, some, List, [], ◌∷◌, map, replicate, arith, All,
}
use mathlib.Core.Option
use avr_ha_lib.Shumway.Memory.{Handle, Pointer, new_handle, lock, load, attach, free}
use avr_ha_lib.Shumway.Kernel.{Message, message, direction_down}
use avr_ha_lib.Shumway.Signal
use avr_ha_lib.Shumway.Action
use avr_ha_lib.Shumway.Server.{World, release}
use avr_ha_lib.Shumway.CanPhy.{
  Command, send_frame, disable_msk, unregister_rx, receive, frames, send_out,
}
use avr_ha_lib.Shumway.CanPhy.Fragments.{framed, Fragmented, receive-Fragmented}
use avr_ha_lib.Shumway.Memory.Intact.{IsIntact}
use avr_ha_lib.Shumway.CanPhy.Receiving.{Delivery, can_irq_receive-Delivery}

-- Eight data bytes behind the length and the action.
abbrev filled : Handle
filled = lock (new_handle (10 ∷ Action.write ∷ 1 ∷ 2 ∷ 3 ∷ 4 ∷ 5 ∷ 6 ∷ 7 ∷ 8 ∷ []))

abbrev loaded : World
loaded = record { memory = filled ∷ []; sent = [] }

abbrev out : Message
out = message Signal.isp_out 0 3 direction_down

abbrev at_start : Pointer
at_start = record { block = 0; at = 0 }

attached : attach 0 loaded.memory ≡ some at_start
unfolding attach
attached = refl

size : load at_start 0 1 loaded.memory ≡ some (10 ∷ [])
unfolding load
size = refl

action : load at_start 1 1 loaded.memory ≡ some (Action.write ∷ [])
unfolding load
action = refl

payload : load at_start 2 8 loaded.memory ≡ some (1 ∷ 2 ∷ 3 ∷ 4 ∷ 5 ∷ 6 ∷ 7 ∷ 8 ∷ [])
unfolding load
payload = refl

receive-Fragmented_example :
    (fs : List (List ℕ)) × (receive 2 256 out loaded
      ≡ some (map (framed Action.write) fs, release 0 loaded))
    × Fragmented (1 ∷ 2 ∷ 3 ∷ 4 ∷ 5 ∷ 6 ∷ 7 ∷ 8 ∷ []) fs
receive-Fragmented_example =
    receive-Fragmented 2 256 Action.write 10 at_start (1 ∷ 2 ∷ 3 ∷ 4 ∷ 5 ∷ 6 ∷ 7 ∷ 8 ∷ []) out
      loaded (omega arith) (λ e. omega arith) (inr refl) attached size action payload (omega arith)
      (omega arith)

-- Eight bytes need two CAN messages.
two_frames :
    Option.map {B = List Command} (λ r. r.0) (receive 2 256 out loaded)
    ≡ some (
        send_frame 1 199 (Action.write ∷ 1 ∷ 2 ∷ 3 ∷ 4 ∷ 5 ∷ 6 ∷ 7 ∷ [])
        ∷ send_frame 1 199 (Action.write ∷ 8 ∷ [])
        ∷ [])
unfolding receive send_out frames attach load free
two_frames = refl

-- The start of the application ends the reception.
closed :
    Option.map {B = List Command}
      (λ r. r.0)
      (receive 2 256 (message Signal.appl_start 0 3 direction_down) loaded)
    ≡ some (disable_msk 0 ∷ unregister_rx 0 ∷ [])
unfolding receive
closed = refl

abbrev fresh : Handle
fresh = new_handle (replicate 255 0)

abbrev empty : World
empty = record { memory = replicate 10 fresh; sent = [] }

fresh-IsIntact : IsIntact fresh
fresh-IsIntact = record { whole = refl; within = omega arith; stored = refl }

All-replicate : (P : Handle → Type 0) (n : ℕ) (h : Handle) → P h → All P (replicate n h)
All-replicate P zero h p = tt
All-replicate P (suc n) h p = (p, All-replicate P n h p)

empty-IsIntact : All IsIntact empty.memory
empty-IsIntact = All-replicate IsIntact 10 fresh fresh-IsIntact

can_irq_receive-Delivery_example : Delivery 2 0x1234 (7 ∷ 8 ∷ 9 ∷ []) empty
can_irq_receive-Delivery_example =
    can_irq_receive-Delivery 2 0x1234 (7 ∷ 8 ∷ 9 ∷ []) empty empty-IsIntact refl (omega arith)
