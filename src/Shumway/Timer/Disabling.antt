-- ===== src/Shumway/Timer/Disabling.antt =====
-- When the timer announces the start of the application, and what comes of the message that stops it.
use avr_ha_lib.Prelude.{
  ℕ, zero, suc, ◌<◌, ◌≡◌, refl, Bool, false, Option, none, some, List, [], ◌∷◌, arith, get_elem?,
}
use avr_ha_lib.Shumway.Memory.{shm_size, Handle, unlock, update, get, free, attach, shm_num}
use avr_ha_lib.Shumway.Kernel.{Message, message, raise_visits, direction_unknown}
use avr_ha_lib.Shumway.Memory.Management.{free-at}
use avr_ha_lib.Shumway.Signal
use avr_ha_lib.Shumway.Action
use avr_ha_lib.Shumway.Server.{World, mediate, release}
use avr_ha_lib.Shumway.Timer.{Timer, condition, receive}
use avr_ha_lib.Shumway.Id.{IdState}
use avr_ha_lib.Shumway.Id

-- `n` interrupts of the timed condition.
abbrev pub conditions : ℕ → ℕ → Timer → World → Timer × World
conditions id zero s w = (s, w)
conditions id (suc n) s w = let (s', w') = condition id s w in conditions id n s' w'

condition-early :
    (id c : ℕ) (on : Bool) (w : World)
    → c < 254
    → condition id (record { cond_cnt = suc (suc c); enabled = on }) w
      ≡ (record { cond_cnt = suc c; enabled = on }, w)
unfolding condition
condition-early id c on w lt = ground arith

-- From a count `c` from 1 to 255 on, the first `c` - 1 interrupts send nothing, and the next one
-- disables the condition and sends the one message that the time is out, with the volatile key.
pub conditions-fire :
    (id c : ℕ) (on : Bool) (w : World)
    → c < 255
    → (conditions id c (record { cond_cnt = suc c; enabled = on }) w
        ≡ (record { cond_cnt = 1; enabled = on }, w))
      × (conditions id (suc c) (record { cond_cnt = suc c; enabled = on }) w ≡ (
        record { cond_cnt = 0; enabled = false },
        mediate (message Signal.timer_out shm_size id direction_unknown) w,
      ))
unfolding condition
conditions-fire id zero on w lt = (refl, refl)
conditions-fire id (suc c) on w lt =
    rw (condition-early id c on w (omega arith)) (conditions-fire id c on w (omega arith))

abbrev is_locked : Option Handle → Bool
is_locked none = false
is_locked (some h) = h.locked

is_locked-unlock : (hs : List Handle) (k : ℕ) → is_locked (get_elem? (update unlock hs k) k) ≡ false
is_locked-unlock [] k = refl
is_locked-unlock (h ∷ hs) zero = refl
is_locked-unlock (h ∷ hs) (suc k) = is_locked-unlock hs k

attach_not_locked :
    (hs : List Handle) (k : ℕ) → is_locked (get_elem? hs k) ≡ false → attach k hs ≡ none
unfolding attach
attach_not_locked hs k e = ground arith

own-frees :
    (id : ℕ) (m : Message) (s : IdState) (w : World)
    → m.sig_id ≡ Signal.disable_appl_start
    → m.sender_id ≡ id
    → s.ack_action ≡ Action.invalid
    → Id.receive id m s w ≡ some (s, release m.msg_id w)
unfolding Id.receive Id.receive_own
own-frees id m s w stop own nothing = rw (stop, own, nothing) (ground arith)

-- The message that stops the automatic start is freed by the timer and sent on. When its piece is
-- then given to somebody else (`taken`), and the message comes back to the server that sent it,
-- with nothing to acknowledge there, that server frees the piece: its new owner cannot attach.
pub receive-frees_twice :
    (id n : ℕ) (m : Message) (t : Timer) (s : IdState) (w : World) (taken : List Handle)
    → m.sig_id ≡ Signal.disable_appl_start
    → m.sender_id ≡ id
    → m.msg_id < shm_num
    → s.ack_action ≡ Action.invalid
    → get n (free m.msg_id w.memory).1 ≡ (false, some m.msg_id, taken)
    → let (t', w') = receive m t w in
      (w' ≡ mediate (raise_visits m) (release m.msg_id w))
      × (Id.receive id (raise_visits m) s (record w' { memory = taken })
          ≡ some (s, release m.msg_id (record w' { memory = taken })))
      × (attach m.msg_id (free m.msg_id taken).1 ≡ none)
unfolding receive
receive-frees_twice id n m t s w taken stop own lt nothing given = (
  rw stop refl,
  own-frees id (raise_visits m) s (record (receive m t w).1 { memory = taken }) stop own nothing,
  rw (free-at m.msg_id taken lt)
      (attach_not_locked (update unlock taken m.msg_id) m.msg_id (is_locked-unlock taken m.msg_id)),
)
