-- ===== src/DeviceFrame/Driven/Reception.antt =====
-- What the receive interrupts of `CDeviceFrame` store, and what `recv` then hands out.
use avr_ha_lib.Prelude.{
  ℕ, suc, ◌+◌, ◌≤◌, ◌<◌, ◌≡◌, ◌≢◌, refl, sym, ap, false, none, some, List, [], ◌∷◌, ◌++◌,
  append_assoc, append-nil, arith, ◌∙◌, length, length-append, ◌⊎◌, inl, inr, Bool-cases, drop,
  set-middle, take-append, All,
}
use native.Mathlib.Nat.{mod-eq_of_lt}
use avr_ha_lib.CFrame.{
  State, invalid, started, regular, stuff, fine, is_control, unstuff, transform_in, restarted,
  finished, reset_rx, receiving,
}
use avr_ha_lib.CFrame.Frame.{stuffed, encode, frame, IsByte, IsValid, unstuff_twice}
use avr_ha_lib.DeviceFrame.Driven.{
  Device, Setup, call, send_on_receive, get_on_receive, recv, arrive,
}

-- `d` with its receiver in `t` and `n` bytes of a message in `payload`.
abbrev taken : Device → State → ℕ → List ℕ → Device
taken d t n payload = record d {
  cframe = record { tx = d.cframe.tx; rx = t };
  recv_mob = record { position = d.recv_mob.position; size = n; payload = payload };
}

-- The receiver is inside a frame, between two bytes of the payload.
abbrev IsOpen : State → Type 0
IsOpen t = (t ≡ started) ⊎ (t ≡ regular)

module _ (k : Setup) where
  open k use {stuffing, pl, flt}

  module _ (d : Device) (below : d.recv_mob.position ≢ pl) where
    receive_start :
        IsValid stuffing
        → d.cframe.rx ≡ invalid
        → get_on_receive k stuffing.sofr d ≡ some (taken d started 0 d.recv_mob.payload)
    unfolding get_on_receive transform_in restarted finished
    receive_start v t = ground arith

    receive_end :
        IsValid stuffing
        → IsOpen d.cframe.rx
        → get_on_receive k stuffing.eofr d
          ≡ some (call k.on_receive (taken d fine d.recv_mob.size d.recv_mob.payload))
    unfolding get_on_receive transform_in restarted finished send_on_receive
    receive_end v t = ground arith

    receive_esc :
        IsValid stuffing
        → IsOpen d.cframe.rx
        → get_on_receive k stuffing.esc d ≡ some (taken d stuff d.recv_mob.size d.recv_mob.payload)
    unfolding get_on_receive transform_in restarted finished
    receive_esc v t = ground arith

    module _ (c x : ℕ) (pre xs : List ℕ) where
      receive_plain :
          d.recv_mob.payload ≡ pre ++ x ∷ xs
          → d.recv_mob.size ≡ length pre
          → suc (length pre) < flt
          → is_control stuffing c ≡ false
          → IsOpen d.cframe.rx
          → get_on_receive k c d ≡ some (taken d regular (suc (length pre)) (pre ++ c ∷ xs))
      unfolding get_on_receive transform_in restarted finished
      receive_plain pay size fits e t = ground (
        arith,
        set-middle pre x c xs,
        length-append pre (x ∷ xs),
        mod-eq_of_lt {n = length pre + 1} {m = flt},
      )

      receive_second :
          d.recv_mob.payload ≡ pre ++ x ∷ xs
          → d.recv_mob.size ≡ length pre
          → suc (length pre) < flt
          → d.cframe.rx ≡ stuff
          → get_on_receive k c d
            ≡ some (taken d regular (suc (length pre)) (pre ++ unstuff stuffing c ∷ xs))
      unfolding get_on_receive transform_in restarted finished
      receive_second pay size fits t = ground (
        arith,
        set-middle pre x (unstuff stuffing c) xs,
        length-append pre (x ∷ xs),
        mod-eq_of_lt {n = length pre + 1} {m = flt},
      )

    -- A byte for a full array is written behind it.
    fault_plain :
        (c : ℕ)
        → d.recv_mob.size ≡ length d.recv_mob.payload
        → is_control stuffing c ≡ false
        → IsOpen d.cframe.rx
        → get_on_receive k c d ≡ none
    unfolding get_on_receive transform_in restarted finished
    fault_plain c size e t = ground arith

    fault_second :
        (c : ℕ)
        → d.recv_mob.size ≡ length d.recv_mob.payload
        → d.cframe.rx ≡ stuff
        → get_on_receive k c d ≡ none
    unfolding get_on_receive transform_in restarted finished
    fault_second c size t = ground arith

  arrive-step :
      (c : ℕ) (cs : List ℕ) (d e : Device)
      → get_on_receive k c d ≡ some e
      → arrive k (c ∷ cs) d ≡ arrive k cs e
  unfolding arrive
  arrive-step c cs d e h = ground arith

  arrive-fault :
      (c : ℕ) (cs : List ℕ) (d : Device) → get_on_receive k c d ≡ none → arrive k (c ∷ cs) d ≡ none
  unfolding arrive
  arrive-fault c cs d h = ground arith

  module _ (v : IsValid stuffing) (c : ℕ) (byte : IsByte c) (d : Device)
      (below : d.recv_mob.position ≢ pl) (t : IsOpen d.cframe.rx) where
    arrive-byte :
        (x : ℕ) (pre xs input : List ℕ)
        → d.recv_mob.payload ≡ pre ++ x ∷ xs
        → d.recv_mob.size ≡ length pre
        → suc (length pre) < flt
        → arrive k (stuffed stuffing c ++ input) d
          ≡ arrive k input (taken d regular (suc (length pre)) (pre ++ c ∷ xs))
    arrive-byte x pre xs input pay size fits = elim (Bool-cases (is_control stuffing c)) [
      | inl e ↦ rw e (
          arrive-step _ _ d _ (receive_esc d below v t)
          ∙ (arrive-step _ input escaped _
                (receive_second escaped below (unstuff stuffing c) x pre xs pay size fits refl)
              ∙ ap (λ b. arrive k input (taken d regular (suc (length pre)) (pre ++ b ∷ xs)))
                  (unstuff_twice stuffing c v.escmod_byte byte)))
      | inr e ↦ rw e (arrive-step c input d _ (receive_plain d below c x pre xs pay size fits e t))
    ]
      where
        escaped : Device
        escaped = taken d stuff d.recv_mob.size d.recv_mob.payload

    arrive-byte_fault :
        (input : List ℕ)
        → d.recv_mob.size ≡ length d.recv_mob.payload
        → arrive k (stuffed stuffing c ++ input) d ≡ none
    arrive-byte_fault input size = elim (Bool-cases (is_control stuffing c)) [
      | inl e ↦ rw e (
          arrive-step _ _ d _ (receive_esc d below v t)
          ∙ arrive-fault _ input _ (
              fault_second (taken d stuff d.recv_mob.size d.recv_mob.payload) below
                (unstuff stuffing c) size refl))
      | inr e ↦ rw e (arrive-fault c input d (fault_plain d below c size e t))
    ]

-- The receiver's state behind the bytes of a payload.
abbrev behind : List ℕ → State → State
behind [] t = t
behind (c ∷ cs) t = regular

behind-IsOpen : (cs : List ℕ) {t : State} → IsOpen t → IsOpen (behind cs t)
behind-IsOpen [] h = h
behind-IsOpen (c ∷ cs) h = inr refl

behind-regular : (cs : List ℕ) → behind cs regular ≡ regular
behind-regular [] = refl
behind-regular (c ∷ cs) = refl

module _ (k : Setup) (v : IsValid k.stuffing) where
  arrive-bytes :
      (cs pre xs input : List ℕ) (d : Device)
      → d.recv_mob.position ≢ k.pl
      → IsOpen d.cframe.rx
      → All IsByte cs
      → length cs ≤ length xs
      → length pre + length cs < k.flt
      → d.recv_mob.payload ≡ pre ++ xs
      → d.recv_mob.size ≡ length pre
      → arrive k (encode k.stuffing cs ++ input) d
        ≡ arrive k input (
            taken d
              (behind cs d.cframe.rx)
              (length pre + length cs)
              (pre ++ (cs ++ drop (length cs) xs)))
  unfolding encode
  arrive-bytes [] pre xs input d below t h room fits pay size = ap (arrive k input) (ground arith)
  arrive-bytes (c ∷ cs) pre [] input d below t h room fits pay size = absurd (omega arith)
  arrive-bytes (c ∷ cs) pre (x ∷ xs) input d below t h room fits pay size = rw append_assoc (
      arrive-byte k v c h.0 d below t x pre xs (encode k.stuffing cs ++ input) pay size
        (omega arith)
      ∙ (arrive-bytes cs (pre ++ c ∷ []) xs input next below (inr refl) h.1 (omega arith)
            (omega (arith, longer)) (sym (append_assoc pre (c ∷ []) xs)) (omega (arith, longer))
          ∙ ap (arrive k input) (
              ground (
                arith,
                longer,
                behind-regular cs,
                append_assoc pre (c ∷ []) (cs ++ drop (length cs) xs),
              ))))
    where
      next : Device
      next = taken d regular (suc (length pre)) (pre ++ c ∷ xs)

      longer : length (pre ++ c ∷ []) ≡ length pre + 1
      longer = length-append pre (c ∷ [])

  arrive-bytes_fault :
      (cs pre xs input : List ℕ) (d : Device)
      → d.recv_mob.position ≢ k.pl
      → IsOpen d.cframe.rx
      → All IsByte cs
      → length xs < length cs
      → length pre + length xs < k.flt
      → d.recv_mob.payload ≡ pre ++ xs
      → d.recv_mob.size ≡ length pre
      → arrive k (encode k.stuffing cs ++ input) d ≡ none
  unfolding encode
  arrive-bytes_fault [] pre xs input d below t h over fits pay size = absurd (omega arith)
  arrive-bytes_fault (c ∷ cs) pre [] input d below t h over fits pay size = rw append_assoc (
      arrive-byte_fault k v c h.0 d below t (encode k.stuffing cs ++ input)
        (rw (pay, append-nil) size))
  arrive-bytes_fault (c ∷ cs) pre (x ∷ xs) input d below t h over fits pay size = rw append_assoc (
      arrive-byte k v c h.0 d below t x pre xs (encode k.stuffing cs ++ input) pay size
        (omega arith)
      ∙ arrive-bytes_fault cs (pre ++ c ∷ []) xs input next below (inr refl) h.1 (omega arith)
          (omega (arith, longer)) (sym (append_assoc pre (c ∷ []) xs)) (omega (arith, longer)))
    where
      next : Device
      next = taken d regular (suc (length pre)) (pre ++ c ∷ xs)

      longer : length (pre ++ c ∷ []) ≡ length pre + 1
      longer = length-append pre (c ∷ [])

  -- The device that `onReceive` sees.
  abbrev holding : List ℕ → Device → Device
  holding p d = taken d fine (length p) (p ++ drop (length p) d.recv_mob.payload)

  arrive-frame :
      (p : List ℕ) (d : Device)
      → d.recv_mob.position ≢ k.pl
      → d.cframe.rx ≡ invalid
      → All IsByte p
      → length p ≤ length d.recv_mob.payload
      → length p < k.flt
      → arrive k (frame k.stuffing p) d ≡ some (call k.on_receive (holding p d))
  unfolding arrive
  arrive-frame p d below t h room fits =
      arrive-step k _ _ d _ (receive_start k d below v t)
      ∙ (arrive-bytes p [] d.recv_mob.payload (k.stuffing.eofr ∷ [])
            (taken d started 0 d.recv_mob.payload) below (inl refl) h room (omega arith) refl refl
          ∙ (arrive-step k _ [] filled _ (receive_end k filled below v (behind-IsOpen p (inl refl)))
              ∙ ap
                  (λ n.
                    some (
                      call k.on_receive (taken d fine n (p ++ drop (length p) d.recv_mob.payload))))
                  (omega arith)))
    where
      filled : Device
      filled = taken d (behind p started) (0 + length p) (p ++ drop (length p) d.recv_mob.payload)

  -- For a valid configuration, and a receiver whose position is not the array's length: if it waits
  -- for a start mark, it stores the payload of the frame that arrives, if that holds bytes, fits the
  -- array and is shorter than the type of sizes can count, and calls `onReceive` on it. A `recv` with
  -- a large enough buffer then returns exactly the payload and makes the receiver wait for the next
  -- frame; one with too small a buffer returns nothing and changes nothing.
  pub arrive-recv :
      (p : List ℕ) (d : Device)
      → d.recv_mob.position ≢ k.pl
      → receiving d.cframe ≡ false
      → All IsByte p
      → length p ≤ length d.recv_mob.payload
      → length p < k.flt
      → (e : Device) × (arrive k (frame k.stuffing p) d ≡ some (call k.on_receive e))
        × ((size : ℕ) → length p ≤ size → (recv k size e).0 ≡ p)
        × ((size : ℕ) → length p ≤ size → receiving (recv k size e).1.cframe ≡ false)
        × ((size : ℕ) → size < length p → recv k size e ≡ ([], e))
  unfolding recv receiving finished reset_rx
  arrive-recv p d below idle h room fits = (
    holding p d,
    arrive-frame p d below (ground arith) h room fits,
    (λ size le. ground (arith, take-append p (drop (length p) d.recv_mob.payload))),
    (λ size le. ground arith),
    λ size lt. ground arith,
  )

  -- For a valid configuration, and a receiver that waits for a start mark, its position not the array's
  -- length: the guard against a full array compares that position, which never moves. Of every frame whose
  -- payload of bytes is longer than the array, a byte is written behind the array, if the type of sizes can
  -- count the array's bytes.
  pub arrive-overflow :
      (p : List ℕ) (d : Device)
      → d.recv_mob.position ≢ k.pl
      → receiving d.cframe ≡ false
      → All IsByte p
      → length d.recv_mob.payload < length p
      → length d.recv_mob.payload < k.flt
      → arrive k (frame k.stuffing p) d ≡ none
  unfolding receiving
  arrive-overflow p d below idle h over fits =
      arrive-step k _ _ d _ (receive_start k d below v (ground arith))
      ∙ arrive-bytes_fault p [] d.recv_mob.payload (k.stuffing.eofr ∷ [])
          (taken d started 0 d.recv_mob.payload) below (inl refl) h over (omega arith) refl refl
