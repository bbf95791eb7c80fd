-- ===== src/Shumway/CanPhy/Receiving.antt =====
-- A CAN message that arrives, and the message that it becomes.
use avr_ha_lib.Prelude.{
  ℕ, ◌+◌, ◌%◌, ◌^◌, ◌≤◌, ◌<◌, ◌≡◌, refl, ap, ◌∙◌, Option, none, some, List, [], ◌∷◌, ◌++◌, length,
  All, arith,
}
use avr_ha_lib.Shumway.Memory.{
  Handle, Pointer, load, store, attach, get_attached, update, lock, shm_num,
}
use avr_ha_lib.Shumway.Memory.Access.{load-store_twice}
use avr_ha_lib.Shumway.Memory.Intact.{
  IsIntact, All-get_elem?, length-update, room_left, get_attached-failed, get_attached-found,
  attach-locked,
}
use avr_ha_lib.Shumway.Memory.Management.{failed, found, get-Outcome, NoneSuits, get_elem?-update}
use avr_ha_lib.Shumway.Kernel.{message, direction_up}
use avr_ha_lib.Shumway.Signal
use avr_ha_lib.Shumway.Server.{World, mediate, ◌>>=◌}
use avr_ha_lib.Shumway.CanPhy.{can_irq_receive, id_bytes, id_value, phy_header_size}

-- The identifier is read back as it was written.
pub id_value-id_bytes : (n : ℕ) → n < 2 ^ 32 → id_value (id_bytes n) ≡ n
id_value-id_bytes n h = omega arith

-- What a CAN message becomes: nothing, if no piece of the shared memory suits, or a message to the
-- servers above, whose key has a piece with the header and the data.
pub data Delivery (id ext : ℕ) (bs : List ℕ) (w : World) : Type 0 where
  dropped :
      can_irq_receive id ext bs w ≡ some w
      → NoneSuits (phy_header_size + length bs) w.memory shm_num
      → Delivery id ext bs w
  delivered :
      (k : ℕ) (ptr : Pointer) (memory : List Handle)
      → can_irq_receive id ext bs w
        ≡ some (record w {
          memory = memory;
          sent = w.sent ++ message Signal.phy_in k id direction_up ∷ [];
        })
      → attach k memory ≡ some ptr
      → load ptr 0 (phy_header_size + length bs) memory
        ≡ some ((id_bytes ext ++ (phy_header_size + length bs) ∷ []) ++ bs)
      → Delivery id ext bs w

module _ (id ext : ℕ) (bs : List ℕ) (w : World) where
  abbrev head : List ℕ
  head = id_bytes ext ++ (phy_header_size + length bs) ∷ []

  -- What the callback makes of what `get_attached` gives.
  abbrev with_piece : Option Pointer × Option ℕ × List Handle → Option World
  with_piece (p, key, memory) = elim p [
    | none ↦ some (record w { memory = memory })
    | some ptr ↦ ◌>>=◌ key λ k.
        ◌>>=◌ (store ptr 0 (id_bytes ext ++ ((phy_header_size + length bs) % 256) ∷ []) memory)
          λ headed. ◌>>=◌ (store ptr phy_header_size bs headed) λ filled.
            some (mediate (message Signal.phy_in k id direction_up) (record w { memory = filled }))
  ]

  can_irq_receive-failed :
      get_attached (phy_header_size + length bs) w.memory ≡ (none, none, w.memory)
      → can_irq_receive id ext bs w ≡ some w
  unfolding can_irq_receive
  can_irq_receive-failed e = ap with_piece e

  can_irq_receive-stored :
      (k : ℕ) (ptr : Pointer) (hs hs' hs'' : List Handle)
      → length bs ≤ 8
      → get_attached (phy_header_size + length bs) w.memory ≡ (some ptr, some k, hs)
      → store ptr 0 head hs ≡ some hs'
      → store ptr phy_header_size bs hs' ≡ some hs''
      → can_irq_receive id ext bs w
        ≡ some (record w {
          memory = hs'';
          sent = w.sent ++ message Signal.phy_in k id direction_up ∷ [];
        })
  unfolding can_irq_receive
  can_irq_receive-stored k ptr hs hs' hs'' eight e s s' =
      let small : (phy_header_size + length bs) % 256 ≡ phy_header_size + length bs =
        omega (arith, eight) in
      ap with_piece e ∙ rw (small, s, s') refl

-- While the pieces of the shared memory are intact, the callback always ends. Either no piece has the room
-- for the CAN message and its header, and nothing changes; or the callback sends one message upwards with
-- the signal SIGNAL_PHY_IN, and behind its key lie the identifier, its low byte first, the length of header
-- and data, and the data.
pub can_irq_receive-Delivery :
    (id ext : ℕ) (bs : List ℕ) (w : World)
    → All IsIntact w.memory
    → length w.memory ≡ shm_num
    → length bs ≤ 8
    → Delivery id ext bs w
can_irq_receive-Delivery id ext bs w all ten eight =
    let wanted = phy_header_size + length bs in
    elim (get-Outcome wanted w.memory) [
      | failed e no_piece ↦
          dropped (can_irq_receive-failed id ext bs w (get_attached-failed wanted w.memory e))
            no_piece
      | found k h e high here unheld fits att ↦
          let hs = update lock w.memory k in
          let ptr : Pointer = record { block = k; at = h.offset } in
          let intact = All-get_elem? w.memory k h all here in
          let (hs', hs'', s, s', l, (bytes, h'')) =
            load-store_twice ptr (head id ext bs w) bs hs (lock h)
              (get_elem?-update lock w.memory k here)
              (rw (length-update lock w.memory k) (rw ten high.below))
              (omega (arith, fits, room_left h intact, intact.stored)) in
          delivered k ptr hs''
            (can_irq_receive-stored id ext bs w k ptr hs hs' hs'' eight
              (get_attached-found wanted k w.memory hs ptr e att) s s')
            (attach-locked k hs'' h bytes high.below h'') l
    ]
