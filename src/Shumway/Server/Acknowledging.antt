-- ===== src/Shumway/Server/Acknowledging.antt =====
-- What an acknowledgement comes to.
use avr_ha_lib.Prelude.{
  ℕ, ◌+◌, ◌≡◌, refl, ap, ◌∙◌, Option, none, some, List, [], ◌∷◌, ◌++◌, length, get_elem?,
  get_elem?-set_self, All, arith, ◌<◌,
}
use avr_ha_lib.Shumway.Memory.{
  Handle, Pointer, load, store, attach, get_attached, update, lock, shm_num,
}
use avr_ha_lib.Shumway.Memory.Access.{load-store}
use avr_ha_lib.Shumway.Memory.Intact.{
  IsIntact, All-get_elem?, length-update, room_left, get_attached-failed, get_attached-found,
  attach-locked,
}
use avr_ha_lib.Shumway.Memory.Management.{failed, found, get-Outcome, NoneSuits, get_elem?-update}
use avr_ha_lib.Shumway.Kernel.{message, direction_unknown}
use avr_ha_lib.Shumway.Server.{header_size, World, mediate, acknowledge, ◌>>=◌}

-- The three bytes: their number, the action and the reply.
abbrev pub reply_bytes : ℕ → ℕ → List ℕ
reply_bytes action reply = (header_size + 1) ∷ action ∷ reply ∷ []

-- The world `w` has become `w'`: as it was, if no piece suits, or with one more message, whose key has a
-- piece that holds the acknowledgement.
pub data Acknowledged (action reply signal id : ℕ) (w w' : World) : Type 0 where
  unsent :
      w' ≡ w
      → NoneSuits (header_size + 1) w.memory shm_num
      → Acknowledged action reply signal id w w'
  sent :
      (k : ℕ) (ptr : Pointer)
      → w'.sent ≡ w.sent ++ message signal k id direction_unknown ∷ []
      → attach k w'.memory ≡ some ptr
      → load ptr 0 3 w'.memory ≡ some (reply_bytes action reply)
      → Acknowledged action reply signal id w w'

module _ (action reply signal id : ℕ) (w : World) where
  abbrev with_piece : Option Pointer × Option ℕ × List Handle → Option World
  with_piece (p, key, memory) = elim p [
    | none ↦ some (record w { memory = memory })
    | some ptr ↦ ◌>>=◌ key λ k. ◌>>=◌ (store ptr 0 (reply_bytes action reply) memory) λ filled.
        some (mediate (message signal k id direction_unknown) (record w { memory = filled }))
  ]

  acknowledge-failed :
      get_attached (header_size + 1) w.memory ≡ (none, none, w.memory)
      → acknowledge action reply signal id w ≡ some w
  unfolding acknowledge
  acknowledge-failed e = ap with_piece e

  acknowledge-stored :
      (k : ℕ) (ptr : Pointer) (hs hs' : List Handle)
      → get_attached (header_size + 1) w.memory ≡ (some ptr, some k, hs)
      → store ptr 0 (reply_bytes action reply) hs ≡ some hs'
      → acknowledge action reply signal id w
        ≡ some
            (record w { memory = hs'; sent = w.sent ++ message signal k id direction_unknown ∷ [] })
  unfolding acknowledge
  acknowledge-stored k ptr hs hs' e s = ap with_piece e ∙ rw s refl

-- While the pieces of the shared memory are intact, an acknowledgement always ends: nothing changes, if no
-- piece has the room for it, else the message is sent and its piece holds the action and the reply.
pub acknowledge-Acknowledged :
    (action reply signal id : ℕ) (w : World)
    → All IsIntact w.memory
    → length w.memory ≡ shm_num
    → (w' : World) × (acknowledge action reply signal id w ≡ some w')
      × Acknowledged action reply signal id w w'
acknowledge-Acknowledged action reply signal id w all ten =
    let wanted = header_size + 1 in
    elim (get-Outcome wanted w.memory) [
      | failed e no_piece ↦ (
        w,
        acknowledge-failed action reply signal id w (get_attached-failed wanted w.memory e),
        unsent refl no_piece,
      )
      | found k h e high here unheld fits att ↦
          let hs = update lock w.memory k in
          let ptr : Pointer = record { block = k; at = h.offset } in
          let intact = All-get_elem? w.memory k h all here in
          let lt : k < length hs = rw (length-update lock w.memory k) (rw ten high.below) in
          let (hs', s, same, l) =
            load-store ptr 0 (reply_bytes action reply) hs (lock h)
              (get_elem?-update lock w.memory k here) lt
              (omega (arith, fits, room_left h intact, intact.stored)) in
          (
            record w { memory = hs'; sent = w.sent ++ message signal k id direction_unknown ∷ [] },
            acknowledge-stored action reply signal id w k ptr hs hs'
                (get_attached-found wanted k w.memory hs ptr e att) s,
            sent k ptr refl
                (attach-locked k hs' h _ high.below
                  (ap (λ x. get_elem? x k) same ∙ get_elem?-set_self hs k _ lt))
                l,
          )
    ]
