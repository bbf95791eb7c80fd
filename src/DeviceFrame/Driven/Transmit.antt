-- ===== src/DeviceFrame/Driven/Transmit.antt =====
-- What the ready interrupts put on the line after `CDeviceFrame::send`.
use avr_ha_lib.Prelude.{
  ℕ, suc, ◌+◌, ◌%◌, ◌≤◌, ◌<◌, ◌≡◌, ◌≢◌, refl, ap, true, false, some, List, [], ◌∷◌, ◌++◌,
  append_assoc, append-nil, arith, ◌∙◌, length, length-append, ◌⊎◌, inl, inr, Bool-cases, get_elem?,
  get_elem?-middle, drop, length-drop,
}
use native.Mathlib.Nat.{mod-eq_of_lt}
use mathlib.Core.Path.{subst}
use avr_ha_lib.CFrame.{
  State, invalid, started, regular, stuff, fine, is_control, unstuff, start_frame, end_frame,
  transform_out, again, sending, ready_to_start, reset_tx, tx_complete,
}
use avr_ha_lib.CFrame.Frame.{stuffed, encode, frame}
use avr_ha_lib.DeviceFrame.Driven.{
  Device, Setup, call, overwrite, send_on_ready, put_on_ready, send, ready_interrupts,
}

-- `d` with its sender at byte `i`, its machine in `t`, and `bs` put.
abbrev moved : Device → State → ℕ → List ℕ → Device
moved d t i bs = record d {
  cframe = record { tx = t; rx = d.cframe.rx };
  send_mob = record { position = i; size = d.send_mob.size; payload = d.send_mob.payload };
  out = d.out ++ bs;
}

moved-moved :
    (d : Device) (t u : State) (i j : ℕ) (bs cs : List ℕ)
    → moved (moved d t i bs) u j cs ≡ moved d u j (bs ++ cs)
moved-moved d t u i j bs cs =
    ap (λ o. record (moved d u j bs) { out = o }) (append_assoc d.out bs cs)

-- One round for each byte on the line, and `n` more.
abbrev rounds : List ℕ → ℕ → ℕ
rounds [] n = n
rounds (b ∷ bs) n = suc (rounds bs n)

rounds-append : (xs ys : List ℕ) (n : ℕ) → rounds (xs ++ ys) n ≡ rounds xs (rounds ys n)
rounds-append [] ys n = refl
rounds-append (x ∷ xs) ys n = ap suc (rounds-append xs ys n)

rounds-length : (xs : List ℕ) (n : ℕ) → rounds xs n ≡ length xs + n
rounds-length [] n = omega arith
rounds-length (x ∷ xs) n = omega (arith, rounds-length xs n)

module _ (k : Setup) where
  open k use {stuffing, flt}

  module _ (d : Device) (c : ℕ) (here : get_elem? d.send_mob.payload d.send_mob.position ≡ some c)
      (inside : d.send_mob.position < d.send_mob.size) (fits : d.send_mob.size < flt) where
    next : (d.send_mob.position + 1) % flt ≡ d.send_mob.position + 1
    next = mod-eq_of_lt (omega arith)

    put_plain :
        (d.cframe.tx ≡ started) ⊎ (d.cframe.tx ≡ regular)
        → is_control stuffing c ≡ false
        → put_on_ready k d ≡ some (moved d regular (d.send_mob.position + 1) (c ∷ []))
    unfolding put_on_ready transform_out again sending ready_to_start
    put_plain t e = ground (arith, next)

    put_escape :
        (d.cframe.tx ≡ started) ⊎ (d.cframe.tx ≡ regular)
        → is_control stuffing c ≡ true
        → put_on_ready k d ≡ some (moved d stuff d.send_mob.position (stuffing.esc ∷ []))
    unfolding put_on_ready transform_out again sending ready_to_start
    put_escape t e = ground arith

    put_second :
        d.cframe.tx ≡ stuff
        → put_on_ready k d
          ≡ some (moved d regular (d.send_mob.position + 1) (unstuff stuffing c ∷ []))
    unfolding put_on_ready transform_out again sending ready_to_start
    put_second t = ground (arith, next)

  interrupts-step :
      (n : ℕ) (d e : Device)
      → put_on_ready k d ≡ some e
      → ready_interrupts k (suc n) d ≡ ready_interrupts k n e
  unfolding ready_interrupts
  interrupts-step n d e h = ground arith

  -- One byte of the payload takes as many interrupts as it has bytes on the line.
  interrupts-byte :
      (d : Device) (c n : ℕ)
      → get_elem? d.send_mob.payload d.send_mob.position ≡ some c
      → d.send_mob.position < d.send_mob.size
      → d.send_mob.size < flt
      → (d.cframe.tx ≡ started) ⊎ (d.cframe.tx ≡ regular)
      → ready_interrupts k (rounds (stuffed stuffing c) n) d
        ≡ ready_interrupts k n (moved d regular (d.send_mob.position + 1) (stuffed stuffing c))
  interrupts-byte d c n here inside fits t = elim (Bool-cases (is_control stuffing c)) [
    | inl e ↦ rw e (
        interrupts-step (suc n) d _ (put_escape d c here inside fits t e)
        ∙ (interrupts-step n escaped _ (put_second escaped c here inside fits refl)
            ∙ ap (ready_interrupts k n) (
                moved-moved d stuff regular d.send_mob.position (d.send_mob.position + 1)
                  (stuffing.esc ∷ []) (unstuff stuffing c ∷ []))))
    | inr e ↦ rw e (interrupts-step n d _ (put_plain d c here inside fits t e))
  ]
    where
      escaped : Device
      escaped = moved d stuff d.send_mob.position (stuffing.esc ∷ [])

  -- The bytes `cs` stand in the payload from the position on; then the end mark follows.
  interrupts-bytes :
      (d : Device) (cs pre tail : List ℕ) (n : ℕ)
      → d.send_mob.payload ≡ pre ++ (cs ++ tail)
      → d.send_mob.position ≡ length pre
      → d.send_mob.size ≡ length pre + length cs
      → d.send_mob.size < flt
      → (d.cframe.tx ≡ regular) ⊎ ((d.cframe.tx ≡ started) × (cs ≢ []))
      → ready_interrupts k (rounds (encode stuffing cs) n) d
        ≡ ready_interrupts k n (moved d regular d.send_mob.size (encode stuffing cs))
  unfolding encode
  interrupts-bytes d [] pre tail n pay pos size fits t =
      ap (ready_interrupts k n) (ground (arith, append-nil d.out, t))
  interrupts-bytes d (c ∷ cs) pre tail n pay pos size fits t = rw rounds-append (
      interrupts-byte d c (rounds (encode stuffing cs) n) here (omega arith) fits opened
      ∙ (interrupts-bytes after cs (pre ++ c ∷ []) tail n (rw append_assoc pay)
            (omega (arith, length-append pre (c ∷ []))) (omega (arith, length-append pre (c ∷ [])))
            fits (inl refl)
          ∙ ap (ready_interrupts k n) (
              moved-moved d regular regular (d.send_mob.position + 1) d.send_mob.size
                (stuffed stuffing c) (encode stuffing cs))))
    where
      here : get_elem? d.send_mob.payload d.send_mob.position ≡ some c
      here = rw (pay, pos) (get_elem?-middle pre c (cs ++ tail))

      opened : (d.cframe.tx ≡ started) ⊎ (d.cframe.tx ≡ regular)
      opened = elim t [ inl r ↦ inr r | inr (r, _) ↦ inl r ]

      after : Device
      after = moved d regular (d.send_mob.position + 1) (stuffed stuffing c)

  -- The device that `send` leaves behind.
  abbrev queued : List ℕ → List ℕ → Device → Device
  queued p tail d = record d {
    send_mob = record { position = 0; size = length p; payload = p ++ tail };
    cframe = record { tx = invalid; rx = d.cframe.rx };
    ready_on = true;
  }

  put_start :
      (d : Device) (c : ℕ) (cs tail : List ℕ)
      → put_on_ready k (queued (c ∷ cs) tail d)
        ≡ some (moved (queued (c ∷ cs) tail d) started 0 (stuffing.sofr ∷ []))
  unfolding put_on_ready start_frame ready_to_start
  put_start d c cs tail = ground arith

  put_end :
      (d : Device)
      → d.cframe.tx ≡ regular
      → d.send_mob.position ≡ d.send_mob.size
      → put_on_ready k d ≡ some (moved d fine d.send_mob.position (stuffing.eofr ∷ []))
  unfolding put_on_ready end_frame sending ready_to_start
  put_end d t e = ground arith

  interrupts-frame :
      (d : Device) (c : ℕ) (cs tail : List ℕ)
      → length (c ∷ cs) < flt
      → ready_interrupts k (rounds (frame stuffing (c ∷ cs)) 0) (queued (c ∷ cs) tail d)
        ≡ some (moved (queued (c ∷ cs) tail d) fine (length (c ∷ cs)) (frame stuffing (c ∷ cs)))
  unfolding ready_interrupts
  interrupts-frame d c cs tail fits =
      interrupts-step _ q _ (put_start d c cs tail)
      ∙ (rw rounds-append (
            interrupts-bytes begun (c ∷ cs) [] tail 1 refl refl (omega arith) fits
              (inr (refl, λ e. cc)))
          ∙ (interrupts-step 0 _ _
                (put_end (moved begun regular n (encode stuffing (c ∷ cs))) refl refl)
              ∙ ap some
                  (moved-moved begun regular fine n n _ _ ∙ moved-moved q started fine 0 n _ _)))
    where
      q : Device
      q = queued (c ∷ cs) tail d

      n : ℕ
      n = length (c ∷ cs)

      begun : Device
      begun = moved q started 0 (stuffing.sofr ∷ [])

-- Copying a payload that fits replaces the front of the array.
overwrite-fits :
    (p xs : List ℕ) → length p ≤ length xs → overwrite xs p ≡ some (p ++ drop (length p) xs)
unfolding overwrite
overwrite-fits [] xs h = refl
overwrite-fits (c ∷ cs) [] h = absurd (omega arith)
overwrite-fits (c ∷ cs) (x ∷ xs) h = rw (overwrite-fits cs xs (omega arith), overwrite)

module _ (k : Setup) where
  send-queued :
      (p : List ℕ) (d : Device)
      → sending d.cframe ≡ false
      → length p ≤ length d.send_mob.payload
      → send k p d ≡ some (length p, queued k p (drop (length p) d.send_mob.payload) d)
  unfolding send reset_tx
  send-queued p d idle fits = rw (idle, overwrite-fits p d.send_mob.payload fits, send)

  -- A payload that is not empty and fits, sent by a device that is not sending, is accepted whole;
  -- as many ready interrupts as its frame is long then put exactly that frame on the line, after
  -- which the machine reports the frame as complete.
  pub send-interrupts :
      (p : List ℕ) (d : Device)
      → p ≢ []
      → sending d.cframe ≡ false
      → length p ≤ length d.send_mob.payload
      → length p < k.flt
      → (q e : Device) × (send k p d ≡ some (length p, q))
        × (ready_interrupts k (length (frame k.stuffing p)) q ≡ some e)
        × (e.out ≡ d.out ++ frame k.stuffing p)
        × (tx_complete e.cframe ≡ true)
        × (e.ready_on ≡ true)
  unfolding tx_complete
  send-interrupts [] d some_bytes idle fits small = absurd (some_bytes refl)
  send-interrupts (c ∷ cs) d some_bytes idle fits small = (
    q,
    moved q fine (length (c ∷ cs)) (frame k.stuffing (c ∷ cs)),
    send-queued (c ∷ cs) d idle fits,
    run,
    refl,
    refl,
    refl,
  )
    where
      tail : List ℕ
      tail = drop (length (c ∷ cs)) d.send_mob.payload

      q : Device
      q = queued k (c ∷ cs) tail d

      rounds_eq : rounds (frame k.stuffing (c ∷ cs)) 0 ≡ length (frame k.stuffing (c ∷ cs))
      rounds_eq = omega (arith, rounds-length (frame k.stuffing (c ∷ cs)) 0)

      run :
          ready_interrupts k (length (frame k.stuffing (c ∷ cs))) q
          ≡ some (moved q fine (length (c ∷ cs)) (frame k.stuffing (c ∷ cs)))
      run =
          subst
            (λ n.
              ready_interrupts k n q
              ≡ some (moved q fine (length (c ∷ cs)) (frame k.stuffing (c ∷ cs))))
            rounds_eq (interrupts-frame k d c cs tail small)

  -- The interrupt after the end mark turns the ready interrupt off and calls `onReady` once.
  pub put_on_ready_complete :
      (d : Device)
      → tx_complete d.cframe ≡ true
      → put_on_ready k d ≡ some (call k.on_ready (record d { ready_on = false }))
  unfolding put_on_ready send_on_ready sending ready_to_start tx_complete
  put_on_ready_complete d h = ground arith

  -- Until the first ready interrupt of a message the machine does not count as sending: a second
  -- `send` then replaces the first message. Both calls report success, and only the second payload
  -- reaches the line.
  pub send-replaces :
      (p q : List ℕ) (d : Device)
      → q ≢ []
      → sending d.cframe ≡ false
      → length p ≤ length d.send_mob.payload
      → length q ≤ length d.send_mob.payload
      → length q < k.flt
      → (d₁ d₂ e : Device) × (send k p d ≡ some (length p, d₁))
        × (send k q d₁ ≡ some (length q, d₂))
        × (ready_interrupts k (length (frame k.stuffing q)) d₂ ≡ some e)
        × (e.out ≡ d.out ++ frame k.stuffing q)
        × (tx_complete e.cframe ≡ true)
  send-replaces p q d some_bytes idle fp fq small =
      let first = queued k p (drop (length p) d.send_mob.payload) d in
      let (d₂, e, sent, run, line, complete, _) =
        send-interrupts q first some_bytes idle_again room small in
      (first, d₂, e, send-queued p d idle fp, sent, run, line, complete)
    where
      idle_again : sending (record { tx = invalid; rx = d.cframe.rx }) ≡ false
      idle_again = unfold sending in refl

      room : length q ≤ length (p ++ drop (length p) d.send_mob.payload)
      room = omega (
        arith,
        length-append p (drop (length p) d.send_mob.payload),
        length-drop (length p) d.send_mob.payload,
      )
