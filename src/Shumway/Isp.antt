-- ===== src/Shumway/Isp.antt =====
-- tools/bootloader/legacy/shumway/s_isp/S_Isp.{h,cpp}: the server that programs the memory. The driver
-- below it is a parameter: which requests it refuses, and what it reads. A request to write holds
-- the bytes of the buffer at the time of the call.
pub mod Closing
mod Tests
use avr_ha_lib.Prelude.{
  ℕ, ◌+◌, ◌-◌, ◌*◌, ◌%◌, ◌^◌, Bool, true, false, not, ◌&&◌, ◌||◌, Option, none, some, List, [], ◌∷◌,
  ◌++◌, ◌==◌, ltb, if◌then◌else◌, get_or,
}
use avr_ha_lib.Shumway.Memory.{Pointer, load, store, attach, get_max, get_size}
use avr_ha_lib.Shumway.Kernel.{
  Message, message, set_sender_id, toggle_direction, raise_visits, direction_down,
}
use avr_ha_lib.Shumway.Signal
use avr_ha_lib.Shumway.Action
use avr_ha_lib.Shumway.Reply
use avr_ha_lib.Shumway.Server.{header_size, World, mediate, release, acknowledge, ◌>>=◌}

pub data MemoryArea : Type 0 where
  flash : MemoryArea
  eeprom : MemoryArea

pub data Request : Type 0 where
  write_request : MemoryArea → ℕ → List ℕ → Request
  erase_request : MemoryArea → Request

-- The members of `S_Isp`, and the requests that the driver took, in order. The key and the size of
-- the buffer mean nothing before the first buffer is there.
pub record Isp : Type 0 where
  pub mem_area : MemoryArea
  pub addr : ℕ
  pub in_progress : Bool
  pub buffer_key : ℕ
  pub buffer : Option Pointer
  pub buffer_size : ℕ
  pub buffer_fill : ℕ
  pub requests : List Request

-- The constructor, on members that hold whatever they hold.
abbrev pub init : ℕ → ℕ → Isp
init buffer_key buffer_size = record {
  mem_area = flash;
  addr = 0;
  in_progress = false;
  buffer_key = buffer_key;
  buffer = none;
  buffer_size = buffer_size;
  buffer_fill = 0;
  requests = [];
}

-- The byte `i` behind a pointer that may be NULL.
abbrev pub byte_at : Option Pointer → ℕ → World → Option ℕ
byte_at mem i w = do ptr ← mem; bs ← load ptr i 1 w.memory; some (get_or bs 0 0)

-- A `uint32_t` behind the header, its low byte first.
abbrev pub address_at : Option Pointer → World → Option ℕ
address_at mem w = do
  ptr ← mem
  bs ← load ptr header_size 4 w.memory
  some (get_or bs 0 0 + 2 ^ 8 * get_or bs 1 0 + 2 ^ 16 * get_or bs 2 0 + 2 ^ 24 * get_or bs 3 0)

unfoldable pub write_complete : Isp → World → Isp × World
write_complete s w = (
  record s {
    addr = (s.addr + s.buffer_fill) % 2 ^ 32;
    buffer = none;
    buffer_fill = 0;
    in_progress = false;
  },
  release s.buffer_key w,
)

abbrev pub erase_complete : Isp → Isp
erase_complete s = record s { in_progress = false }

module _ (write_refused : MemoryArea → ℕ → List ℕ → Bool) (erase_refused : MemoryArea → Bool)
    (read_buffer : MemoryArea → ℕ → ℕ → Option (List ℕ)) (id : ℕ) where
  -- `_init_isp`: `true` when the driver refused.
  unfoldable pub init_isp : Isp → World → Option (Bool × Isp)
  init_isp s w = do
    ptr ← s.buffer
    bs ← load ptr 0 s.buffer_fill w.memory
    some (
        if write_refused s.mem_area s.addr bs then (true, record s { in_progress = false }) else (
          false,
          record s {
            in_progress = true;
            requests = s.requests ++ write_request s.mem_area s.addr bs ∷ [];
          },
        ))

  -- Acknowledge, then free the message's piece.
  abbrev pub answer : ℕ → ℕ → ℕ → Isp → World → Option (Isp × World)
  answer action reply key s w = do
    w' ← acknowledge action reply Signal.isp_out id w
    some (s, release key w')

  -- Free the message's piece, then acknowledge its action with a byte that is read after that.
  abbrev pub free_answer : Option Pointer → ℕ → ℕ → Isp → World → Option (Isp × World)
  free_answer mem reply key s w = do
    let freed = release key w
    action ← byte_at mem 1 freed
    w' ← acknowledge action reply Signal.isp_out id freed
    some (s, w')

  -- ACTION_MEM_SELECT
  unfoldable pub select : ℕ → Option Pointer → ℕ → ℕ → Isp → World → Option (Isp × World)
  select action mem key data_len s w = if ltb data_len 1 then some (s, release key w) else do
    ms ← byte_at mem header_size w
    (if ms == 1
        then answer action Reply.ok key (record s { mem_area = flash }) w
        else if ms == 2
        then answer action Reply.ok key (record s { mem_area = eeprom }) w
        else answer action Reply.error key s w)

  -- ACTION_FULL_ERASE
  unfoldable pub full_erase : ℕ → ℕ → Isp → World → Option (Isp × World)
  full_erase action key s w =
      if erase_refused s.mem_area
      then answer action Reply.error key (record s { in_progress = false }) w
      else answer action Reply.ok key
          (record s { in_progress = true; requests = s.requests ++ erase_request s.mem_area ∷ [] })
          w

  -- ACTION_ADDR
  unfoldable pub set_addr : ℕ → Option Pointer → ℕ → ℕ → Isp → World → Option (Isp × World)
  set_addr action mem key data_len s w =
      if ltb data_len 4
      then some (s, release key w)
      else do a ← address_at mem w; answer action Reply.ok key (record s { addr = a }) w

  -- ACTION_WRITE
  unfoldable pub write : ℕ → Option Pointer → ℕ → ℕ → Message → Isp → World → Option (Isp × World)
  write action mem key data_len m s w =
      if ltb s.buffer_size (s.buffer_fill + data_len)
      then (do
        (refused, s') ← init_isp s w
        (if refused then answer action Reply.error key s' w else some (s', mediate m w)))
      else do
        from ← mem
        to ← s.buffer
        bs ← load from header_size data_len w.memory
        filled ← store to s.buffer_fill bs w.memory
        answer action Reply.ok key (record s { buffer_fill = (s.buffer_fill + data_len) % 256 })
            (record w { memory = filled })

  -- The number of bytes that ACTION_READ reads at once, up to the address `dest`.
  abbrev pub chunk : ℕ → Isp → ℕ
  chunk dest s =
      let max = (s.buffer_size + 256 - header_size) % 256 in
      let diff = (dest + 2 ^ 32 - s.addr) % 256 in if (diff == 0) || ltb max diff then max else diff

  -- ACTION_READ when the address is in front of `dest`.
  unfoldable pub read_on : Option Pointer → ℕ → ℕ → Message → Isp → World → Option (Isp × World)
  read_on mem key dest m s w = do
    let size = chunk dest s
    to ← s.buffer
    action ← byte_at mem 1 w
    headed ← store to 0 (((size + header_size) % 256) ∷ action ∷ []) w.memory
    elim (read_buffer s.mem_area s.addr size) [
      | none ↦ free_answer mem Reply.error key s (record w { memory = headed })
      | some bs ↦ do
        filled ← store to header_size bs headed
        some (
          record s { buffer = none; addr = (s.addr + size) % 2 ^ 32 },
          mediate m (
              mediate (message Signal.isp_out s.buffer_key id direction_down)
                (record w { memory = filled })),
        )
    ]

  -- ACTION_READ
  unfoldable pub read : Option Pointer → ℕ → ℕ → Message → Isp → World → Option (Isp × World)
  read mem key data_len m s w = if ltb data_len 4 then some (s, release key w) else do
    dest ← address_at mem w
    (if ltb s.addr dest then read_on mem key dest m s w else free_answer mem Reply.ok key s w)

  -- The switch on the action.
  unfoldable pub perform : ℕ → Option Pointer → ℕ → Message → Isp → World → Option (Isp × World)
  perform action mem key m s w = do
    len ← byte_at mem 0 w
    let data_len = (len + 256 - header_size) % 256
    (if action == Action.mem_select
        then select action mem key data_len s w
        else if action == Action.full_erase
        then full_erase action key s w
        else if action == Action.addr
        then set_addr action mem key data_len s w
        else if action == Action.write
        then write action mem key data_len m s w
        else if action == Action.read
        then read mem key data_len m s w
        else some (s, release key w))

  -- SIGNAL_ID_IN from the check of the buffer on.
  unfoldable pub act : Option Pointer → ℕ → Message → Isp → World → Option (Isp × World)
  act mem key m s w = do
    action ← byte_at mem 1 w
    (if ltb 0 s.buffer_fill && not (action == Action.write)
        then (do
          (refused, s') ← init_isp s w
          (if refused then free_answer mem Reply.error key s' w else some (s', mediate m w)))
        else perform action mem key m s w)

  -- SIGNAL_ID_IN
  unfoldable pub id_in : Option Pointer → ℕ → Message → Isp → World → Option (Isp × World)
  id_in mem key m s w =
      if ltb (get_size key w.memory) header_size
      then some (s, release key w)
      else if s.in_progress
      then some (s, mediate m w)
      else elim s.buffer [
        | some b ↦ act mem key m s w
        | none ↦
            let (failed, got, memory) = get_max w.memory in
            let w' = record w { memory = memory } in
            if failed then free_answer mem Reply.error key s w' else do
              k ← got
              act mem key m
                  (record s {
                    buffer_key = k;
                    buffer = attach k memory;
                    buffer_size = get_size k memory % 256;
                  })
                  w'
      ]

  -- SIGNAL_COMM_CLOSE
  unfoldable pub close : Message → Isp → World → Option (Isp × World)
  close m s w =
      if ltb 0 s.buffer_fill
      then (if s.in_progress
          then some (s, mediate m w)
          else do (_, s') ← init_isp s w; some (s', mediate m w))
      else some (
        s,
        mediate (toggle_direction (set_sender_id id (record m { sig_id = Signal.comm_closed }))) w,
      )

  unfoldable pub receive : Message → Isp → World → Option (Isp × World)
  receive m s w =
      if m.sig_id == Signal.id_in
      then id_in (attach m.msg_id w.memory) m.msg_id m s w
      else if m.sig_id == Signal.comm_close
      then close m s w
      else if m.sender_id == id
      then some (s, release m.msg_id w)
      else some (s, mediate (raise_visits m) w)
