-- ===== src/Shumway/Memory.antt =====
-- tools/bootloader/legacy/shumway/ipc/Bounded_Shared_Memory.{h,cpp}: the pieces of memory that messages
-- point into. A pointer that `attach` gives out is the key of a piece and an offset in it.
pub mod Access
pub mod Management
pub mod Intact
mod Tests
use avr_ha_lib.Prelude.{
  ℕ, zero, suc, ◌+◌, ◌-◌, ◌*◌, ◌%◌, ◌^◌, Bool, true, false, not, ◌||◌, Option, none, some, List, [],
  ◌∷◌, ◌++◌, ◌==◌, ltb, leb, if◌then◌else◌, length, get_elem?, set, take, drop, replicate,
}

-- SHM_NUM and SHM_SIZE of config/config.h.
abbrev pub shm_num : ℕ
shm_num = 10

abbrev pub shm_size : ℕ
shm_size = 255

-- `Shared_Memory_Handle`.
pub record Handle : Type 0 where
  pub locked : Bool
  pub size : ℕ
  pub offset : ℕ
  pub data_bytes : List ℕ

-- A new handle, on storage that holds whatever it holds.
abbrev pub new_handle : List ℕ → Handle
new_handle storage = record { locked = false; size = shm_size; offset = 0; data_bytes = storage }

abbrev pub lock : Handle → Handle
lock h = record h { locked = true }

abbrev pub unlock : Handle → Handle
unlock h = record h { locked = false; offset = 0 }

-- `_size - _offset`, in `size_t`.
unfoldable pub room : Handle → ℕ
room h = (h.size + 2 ^ 16 - h.offset) % 2 ^ 16

-- `true` reports an offset out of range.
unfoldable pub add_offset : ℕ → Handle → Bool × Handle
add_offset value h =
    if ltb value (room h)
    then (false, record h { offset = (h.offset + value) % 256 })
    else (true, h)

-- `_get_key` and `_get_idx`: the flag is `true` for a number out of range.
abbrev pub get_key : ℕ → Bool × ℕ
get_key idx = (not (ltb idx shm_num), idx)

abbrev pub get_idx : ℕ → Bool × ℕ
get_idx key = (not (ltb key shm_num), key)

-- A pointer into the piece `block`.
pub record Pointer : Type 0 where
  pub block : ℕ
  pub at : ℕ

-- The condition on which the search of `get` goes on.
abbrev pub is_unfit : ℕ → Option Handle → Bool
is_unfit wanted none = true
is_unfit wanted (some h) = ltb (room h) wanted || h.locked

-- `while (__idx-- && ...)`, from the value `__idx` on; `0xff` when all are unfit.
unfoldable pub scan : ℕ → List Handle → ℕ → ℕ
scan wanted hs zero = 0xff
scan wanted hs (suc i) =
    let rest = scan wanted hs i in if is_unfit wanted (get_elem? hs i) then rest else i

-- `_smhs[i] = f(_smhs[i])`.
abbrev pub update : (Handle → Handle) → List Handle → ℕ → List Handle
update f [] i = []
update f (h ∷ hs) zero = f h ∷ hs
update f (h ∷ hs) (suc i) = h ∷ update f hs i

-- `get`: `true` reports that there is no such piece; the option is what goes to `__id`.
unfoldable pub get : ℕ → List Handle → Bool × Option ℕ × List Handle
get wanted hs =
    let idx = scan wanted hs shm_num in
    if idx == 0xff
    then (true, none, hs)
    else (let (failed, key) = get_key idx in (failed, some key, update lock hs idx))

unfoldable pub get_max : List Handle → Bool × Option ℕ × List Handle
get_max hs = get shm_size hs

unfoldable pub get_size : ℕ → List Handle → ℕ
get_size key hs =
    let (bad, idx) = get_idx key in
    if bad then 0 else elim (get_elem? hs idx) [ none ↦ 0 | some h ↦ room h ]

-- `none` is NULL.
unfoldable pub attach : ℕ → List Handle → Option Pointer
attach key hs =
    let (bad, idx) = get_idx key in
    if bad then none else elim (get_elem? hs idx) [
      | none ↦ none
      | some h ↦ if h.locked then some (record { block = idx; at = h.offset }) else none
    ]

unfoldable pub free : ℕ → List Handle → Bool × List Handle
free key hs =
    let (bad, idx) = get_idx key in if bad then (true, hs) else (false, update unlock hs idx)

-- `get_attached`: the pointer, and what goes to `__id`.
unfoldable pub get_attached : ℕ → List Handle → Option Pointer × Option ℕ × List Handle
get_attached wanted hs =
    let (failed, id, hs') = get wanted hs in
    if failed
    then (none, id, hs')
    else elim id [ none ↦ (none, none, hs') | some key ↦ (attach key hs', some key, hs') ]

-- `ctl` with its only command, CTL_OFFSET.
unfoldable pub ctl_offset : ℕ → ℕ → List Handle → Bool × List Handle
ctl_offset key value hs =
    let (bad, idx) = get_idx key in
    if bad then (true, hs) else elim (get_elem? hs idx) [
      | none ↦ (true, hs)
      | some h ↦ let (failed, h') = add_offset value h in (failed, set hs idx h')
    ]

-- Loads and stores of bytes behind a pointer; `none` for one that leaves the piece.
unfoldable pub load : Pointer → ℕ → ℕ → List Handle → Option (List ℕ)
load p i n hs = elim (get_elem? hs p.block) [
  | none ↦ none
  | some h ↦
      if leb (p.at + i + n) (length h.data_bytes)
      then some (take n (drop (p.at + i) h.data_bytes))
      else none
]

unfoldable pub store : Pointer → ℕ → List ℕ → List Handle → Option (List Handle)
store p i bs hs = elim (get_elem? hs p.block) [
  | none ↦ none
  | some h ↦
      let n = p.at + i in
      if leb (n + length bs) (length h.data_bytes)
      then some (
          set hs p.block (record h {
            data_bytes = take n h.data_bytes ++ bs ++ drop (n + length bs) h.data_bytes;
          }))
      else none
]
