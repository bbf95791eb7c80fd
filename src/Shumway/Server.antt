-- ===== src/Shumway/Server.antt =====
-- tools/bootloader/legacy/shumway/ipc/Server.{h,cpp}, with the numbers of config/config.h,
-- config/protocol.h and prot/i_header.h: what the servers share. Enumerations are one byte, as the
-- Makefile's -fshort-enums makes them.
pub mod Acknowledging
use avr_ha_lib.Prelude.{ℕ, ◌+◌, Option, none, some, List, [], ◌∷◌, ◌++◌}
use avr_ha_lib.Shumway.Memory.{Handle, free, get_attached, store}
use avr_ha_lib.Shumway.Kernel.{Message, message, direction_unknown}

-- sizeof(i_hdr_action_t): the length, then the action.
abbrev pub header_size : ℕ
header_size = 2

-- The shared memory, and the messages sent, in order.
pub record World : Type 0 where
  pub memory : List Handle
  pub sent : List Message

abbrev pub mediate : Message → World → World
mediate m w = record w { sent = w.sent ++ m ∷ [] }

abbrev pub release : ℕ → World → World
release key w = record w { memory = (free key w.memory).1 }

-- A chain of accesses to memory; one out of bounds, or through NULL, ends it.
infixl 10 ◌>>=◌
abbrev pub ◌>>=◌ {ℓ κ} : {A : Type ℓ} {B : Type κ} → Option A → (A → Option B) → Option B
◌>>=◌ none f = none
◌>>=◌ (some a) f = f a

-- `S_acknowledge`: nothing happens when no piece is free.
unfoldable pub acknowledge : ℕ → ℕ → ℕ → ℕ → World → Option World
acknowledge action reply signal id w =
    let (p, key, memory) = get_attached (header_size + 1) w.memory in
    elim p [
      | none ↦ some (record w { memory = memory })
      | some ptr ↦ do
        k ← key
        filled ← store ptr 0 ((header_size + 1) ∷ action ∷ reply ∷ []) memory
        some (mediate (message signal k id direction_unknown) (record w { memory = filled }))
    ]
