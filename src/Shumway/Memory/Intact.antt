-- ===== src/Shumway/Memory/Intact.antt =====
-- Pieces of the shared memory as the class sets them up, and what `get_attached` and `attach` make of them.
use mathlib.Core.Path.{subst}
use avr_ha_lib.Prelude.{
  ℕ, zero, suc, ◌+◌, ◌≤◌, ◌<◌, ◌≡◌, refl, ap, ◌∙◌, true, false, Bool, if◌then◌else◌, Option, none,
  some, List, [], ◌∷◌, length, get_elem?, All, arith,
}
use avr_ha_lib.Shumway.Memory.{
  Handle, Pointer, attach, get, get_attached, update, lock, room, shm_size, shm_num,
}

-- A piece as the class sets it up, its offset moved at most to its end.
pub record IsIntact (h : Handle) : Type 0 where
  pub whole : h.size ≡ shm_size
  pub within : h.offset ≤ shm_size
  pub stored : length h.data_bytes ≡ shm_size

pub All-get_elem? :
    (hs : List Handle) (k : ℕ) (h : Handle) → All IsIntact hs → get_elem? hs k ≡ some h → IsIntact h
All-get_elem? [] k h all e = absurd (cc)
All-get_elem? (x ∷ hs) zero h all e = subst IsIntact (cc) all.0
All-get_elem? (x ∷ hs) (suc k) h all e = All-get_elem? hs k h all.1 e

pub length-update :
    (f : Handle → Handle) (hs : List Handle) (k : ℕ) → length (update f hs k) ≡ length hs
length-update f [] k = refl
length-update f (h ∷ hs) zero = refl
length-update f (h ∷ hs) (suc k) = ap suc (length-update f hs k)

pub room_left : (h : Handle) → IsIntact h → h.offset + room h ≡ shm_size
unfolding room
room_left h i = let w = i.whole in let l = i.within in omega (arith, w, l)

-- What `get_attached` makes of what `get` gives.
abbrev attached : Bool × Option ℕ × List Handle → Option Pointer × Option ℕ × List Handle
attached (missing, id, hs) =
    if missing
    then (none, id, hs)
    else elim id [ none ↦ (none, none, hs) | some key ↦ (attach key hs, some key, hs) ]

pub get_attached-failed :
    (wanted : ℕ) (hs : List Handle)
    → get wanted hs ≡ (true, none, hs)
    → get_attached wanted hs ≡ (none, none, hs)
unfolding get_attached
get_attached-failed wanted hs e = ap attached e

pub get_attached-found :
    (wanted k : ℕ) (hs hs' : List Handle) (p : Pointer)
    → get wanted hs ≡ (false, some k, hs')
    → attach k hs' ≡ some p
    → get_attached wanted hs ≡ (some p, some k, hs')
unfolding get_attached
get_attached-found wanted k hs hs' p e f = ap attached e ∙ ap (λ o. (o, some k, hs')) f

-- Attaching does not look at the bytes.
pub attach-locked :
    (k : ℕ) (hs : List Handle) (h : Handle) (bytes : List ℕ)
    → k < shm_num
    → get_elem? hs k ≡ some (record (lock h) { data_bytes = bytes })
    → attach k hs ≡ some (record { block = k; at = h.offset })
unfolding attach
attach-locked k hs h bytes lt e = rw e (ground arith)
