-- ===== src/Shumway/CanPhy/Fragments.antt =====
-- The CAN messages that a message for the other side is sent in.
use Prim.Native.Nat.{max}
use avr_ha_lib.Prelude.{
  ℕ, zero, suc, ◌+◌, ◌-◌, ◌/◌, ◌%◌, ◌≤◌, ◌<◌, ◌≡◌, ◌≢◌, refl, ap, ◌∙◌, ◌⊎◌, inl, inr, true, false,
  ◌||◌, Option, some, List, [], ◌∷◌, ◌++◌, map, ◌==◌, ltb, if◌then◌else◌, length, take, drop,
  flatten, All, arith, dec_lt, take-append-drop, length-take, length-drop, append-nil,
}
use avr_ha_lib.Shumway.Memory.{Pointer, load, attach}
use avr_ha_lib.Shumway.Memory.Access.{load_parts}
use avr_ha_lib.Shumway.Kernel.{Message}
use avr_ha_lib.Shumway.Signal
use avr_ha_lib.Shumway.Server.{header_size, World, release, ◌>>=◌}
use avr_ha_lib.Shumway.CanPhy.{
  Command, send_frame, tx_mob_id, get_own_id, data_len, frames, send_out, receive,
}

-- The frame of a fragment: the action goes in front.
abbrev pub framed : ℕ → List ℕ → Command
framed action fragment = send_frame tx_mob_id get_own_id (action ∷ fragment)

-- Fragments of at most seven bytes, as few as can be but one at least, that make up the bytes.
pub record Fragmented (bs : List ℕ) (fs : List (List ℕ)) : Type 0 where
  pub joined : flatten fs ≡ bs
  pub small : All (λ f. length f ≤ data_len - 1) fs
  pub few : length fs ≡ max 1 ((length bs + 6) / 7)

take_all : (n : ℕ) (bs : List ℕ) → length bs ≡ n → take n bs ≡ bs
take_all zero [] h = refl
take_all zero (b ∷ bs) h = absurd (omega arith)
take_all (suc n) [] h = refl
take_all (suc n) (b ∷ bs) h = ap (◌∷◌ b) (take_all n bs (omega arith))

Fragmented-one : (bs : List ℕ) → length bs ≤ 7 → Fragmented bs (bs ∷ [])
Fragmented-one bs h = record { joined = append-nil bs; small = (h, tt); few = omega (arith, h) }

Fragmented-cons :
    (bs : List ℕ) (fs : List (List ℕ))
    → 7 < length bs
    → Fragmented (drop 7 bs) fs
    → Fragmented bs (take 7 bs ∷ fs)
Fragmented-cons bs fs h f = record {
  joined = ap (λ t. take 7 bs ++ t) f.joined ∙ take-append-drop 7 bs;
  small = (omega (arith, length-take 7 bs), f.small);
  few = omega (arith, f.few, length-drop 7 bs, h);
}

-- One round of the loop, with the number of bytes that it sends.
abbrev round : ℕ → ℕ → Pointer → ℕ → ℕ → ℕ → World → ℕ → Option (List Command)
round fuel action ptr pos len i w dlc = ◌>>=◌ (load ptr pos dlc w.memory) (λ fragment.
    if ltb ((i + dlc) % 256) len
    then (◌>>=◌ (frames fuel action ptr (pos + dlc) len ((i + dlc) % 256) w)
        (λ rest. some (framed action fragment ∷ rest)))
    else some (framed action fragment ∷ []))

frames-last :
    (fuel action pos len i dlc : ℕ) (ptr : Pointer) (w : World) (bs : List ℕ)
    → (if ltb (len - i) 7 then len - i else 7) ≡ dlc
    → load ptr pos dlc w.memory ≡ some bs
    → ltb ((i + dlc) % 256) len ≡ false
    → frames (suc fuel) action ptr pos len i w ≡ some (framed action bs ∷ [])
unfolding frames
frames-last fuel action pos len i dlc ptr w bs e l over =
    ap (round fuel action ptr pos len i w) e ∙ rw (l, over) refl

frames-more :
    (fuel action pos len i : ℕ) (ptr : Pointer) (w : World) (bs : List ℕ) (cs : List Command)
    → (if ltb (len - i) 7 then len - i else 7) ≡ 7
    → load ptr pos 7 w.memory ≡ some bs
    → ltb ((i + 7) % 256) len ≡ true
    → frames fuel action ptr (pos + 7) len ((i + 7) % 256) w ≡ some cs
    → frames (suc fuel) action ptr pos len i w ≡ some (framed action bs ∷ cs)
unfolding frames
frames-more fuel action pos len i ptr w bs cs e l more rest =
    ap (round fuel action ptr pos len i w) e ∙ rw (l, more, rest) refl

-- The loop sends all bytes in fragments.
frames-Fragmented :
    (fuel action pos len i : ℕ) (ptr : Pointer) (w : World) (bs : List ℕ)
    → load ptr pos (len - i) w.memory ≡ some bs
    → i ≤ len
    → len < 256
    → len < i + fuel
    → (fs : List (List ℕ)) × (frames fuel action ptr pos len i w ≡ some (map (framed action) fs))
      × Fragmented bs fs
frames-Fragmented zero action pos len i ptr w bs l le lim enough = absurd (omega arith)
frames-Fragmented (suc fuel) action pos len i ptr w bs l le lim enough =
    let whole = load_parts ptr pos (len - i) (len - i) w.memory bs l (omega arith) in
    let size : length bs ≡ len - i = whole.2 in
    elim (dec_lt (len - i) 8) [
      | yes short ↦ (
        bs ∷ [],
        frames-last fuel action pos len i (len - i) ptr w bs (ground arith) l (ground arith),
        Fragmented-one bs (omega (arith, size, short)),
      )
      | no long ↦
          let (front, behind, _) = load_parts ptr pos (len - i) 7 w.memory bs l (omega arith) in
          let on : (i + 7) % 256 ≡ i + 7 = omega arith in
          let (fs, e, f) =
            frames-Fragmented fuel action (pos + 7) len ((i + 7) % 256) ptr w (drop 7 bs)
              (rw on (ap (λ n. load ptr (pos + 7) n w.memory) (omega arith) ∙ behind)) (omega arith)
              lim (omega (arith, enough)) in
          (
            take 7 bs ∷ fs,
            frames-more fuel action pos len i ptr w (take 7 bs) (map (framed action) fs)
                (ground arith) front (ground arith) e,
            Fragmented-cons bs fs (omega (arith, size)) f,
          )
    ]

module _ (id : ℕ) where
  receive-frames :
      (fuel action len : ℕ) (ptr : Pointer) (m : Message) (w : World) (cs : List Command)
      → m.sender_id ≢ id
      → (m.sig_id ≡ Signal.id_out) ⊎ (m.sig_id ≡ Signal.isp_out)
      → attach m.msg_id w.memory ≡ some ptr
      → load ptr 0 1 w.memory ≡ some (len ∷ [])
      → load ptr 1 1 w.memory ≡ some (action ∷ [])
      → frames fuel action ptr header_size ((len + 256 - header_size) % 256) 0 w ≡ some cs
      → receive id fuel m w ≡ some (cs, release m.msg_id w)
  unfolding receive send_out
  receive-frames fuel action len ptr m w cs other out here size act e =
      let own : (m.sender_id == id) ≡ false = ground arith in
      let leaves : (m.sig_id == Signal.id_out || m.sig_id == Signal.isp_out) ≡ true = elim out [
        | inl e ↦ ground arith
        | inr e ↦ ground arith
      ] in
      rw (own, leaves, here, size, act, e) refl

  -- A message with the signal SIGNAL_ID_OUT or SIGNAL_ISP_OUT of another server, whose key has a piece
  -- with a length byte of at least 2 and that many bytes, is sent: the bytes behind the length and the
  -- action go out in fragments of at most seven, as few as can be but one at least, in order, each as
  -- a CAN message of MOb 1 with the board's identifier and the action in front. The piece is then
  -- freed, and no message is sent on. More than 255 rounds suffice for the loop.
  pub receive-Fragmented :
      (fuel action len : ℕ) (ptr : Pointer) (bs : List ℕ) (m : Message) (w : World)
      → 255 < fuel
      → m.sender_id ≢ id
      → (m.sig_id ≡ Signal.id_out) ⊎ (m.sig_id ≡ Signal.isp_out)
      → attach m.msg_id w.memory ≡ some ptr
      → load ptr 0 1 w.memory ≡ some (len ∷ [])
      → load ptr 1 1 w.memory ≡ some (action ∷ [])
      → load ptr header_size (len - header_size) w.memory ≡ some bs
      → header_size ≤ len
      → len < 256
      → (fs : List (List ℕ)) × (receive id fuel m w
          ≡ some (map (framed action) fs, release m.msg_id w))
        × Fragmented bs fs
  receive-Fragmented fuel action len ptr bs m w enough other out here size act load_bs least lim =
      let n = len - header_size in
      let sized : (len + 256 - header_size) % 256 ≡ n = omega arith in
      let all : load ptr header_size (n - 0) w.memory ≡ some bs =
        ap (λ k. load ptr header_size k w.memory) (omega arith) ∙ load_bs in
      let (fs, e, f) =
        frames-Fragmented fuel action header_size n 0 ptr w bs all (omega arith)
          (omega (arith, lim)) (omega (arith, lim, enough)) in
      (
        fs,
        receive-frames fuel action len ptr m w (map (framed action) fs) other out here size act
            (ap (λ k. frames fuel action ptr header_size k 0 w) sized ∙ e),
        f,
      )
