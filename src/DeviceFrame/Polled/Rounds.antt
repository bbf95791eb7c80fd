-- ===== src/DeviceFrame/Polled/Rounds.antt =====
-- The rounds of the loop of `CDeviceFrameNoInt::recv`, outside a frame and inside one.
use avr_ha_lib.Prelude.{
  ℕ, ◌+◌, ◌≤◌, ◌<◌, ◌≡◌, ◌≢◌, refl, false, some, List, [], ◌∷◌, ◌++◌, append-nil, append_assoc,
  arith, if◌then◌else◌, ◌∙◌, length, length-append, inl, inr, Bool-cases, All, All-weaken, ◌==◌,
}
use mathlib.Core.Path.{◌≡⟨◌⟩◌, ◌∎}
use avr_ha_lib.CFrame.{
  Stuffing, State, CFrame, started, regular, invalid, stuff, is_control, unstuff, transform_in,
  restarted, finished, reset_rx,
}
use avr_ha_lib.CFrame.Frame.{
  stuffed, encode, IsByte, IsValid, HidesMarks, Unmarked, unstuff_twice, encode-Unmarked,
}
use avr_ha_lib.DeviceFrame.Polled.{break, more, receive, recv_loop}

abbrev pub at : State → CFrame
at t = record { tx = invalid; rx = t }

-- A machine in `started` reads as one in `regular`.
module _ (s : Stuffing) (size : ℕ) where
  pub receive-started :
      (c : ℕ) (b : List ℕ) → receive s size c (at started) b ≡ receive s size c (at regular) b
  unfolding receive transform_in
  receive-started c b = refl

  pub recv_loop-started :
      (b : List ℕ) (input : List ℕ)
      → recv_loop s size (at started) b input ≡ recv_loop s size (at regular) b input
  unfolding recv_loop
  recv_loop-started b [] = refl
  recv_loop-started b (c ∷ input) = rw (receive-started c b, recv_loop)

  -- Outside a frame all but the start mark is dropped.
  pub receive-invalid_other :
      (c : ℕ) (b : List ℕ) → c ≢ s.sofr → receive s size c (at invalid) b ≡ more (at invalid) b
  unfolding receive transform_in restarted finished
  receive-invalid_other c b h = ground arith

  pub receive-invalid_sofr :
      (b : List ℕ) → s.sofr < 128 → receive s size s.sofr (at invalid) b ≡ more (at started) []
  unfolding receive transform_in restarted finished
  receive-invalid_sofr b small = ground arith

  pub receive-regular_sofr :
      (b : List ℕ)
      → s.sofr < 128
      → s.sofr ≢ s.eofr
      → receive s size s.sofr (at regular) b ≡ more (at started) []
  unfolding receive transform_in restarted finished
  receive-regular_sofr b small h = ground arith

  pub receive-regular_eofr :
      (b : List ℕ) → s.eofr < 128 → receive s size s.eofr (at regular) b ≡ break
  unfolding receive transform_in restarted finished
  receive-regular_eofr b small = ground arith

  pub receive-regular_esc :
      (b : List ℕ) → IsValid s → receive s size s.esc (at regular) b ≡ more (at stuff) b
  unfolding receive transform_in restarted finished
  receive-regular_esc b v = ground arith

  pub receive-regular_plain :
      (c : ℕ) (b : List ℕ)
      → is_control s c ≡ false
      → receive s size c (at regular) b
        ≡ (if length b == size then more (at invalid) [] else more (at regular) (b ++ c ∷ []))
  unfolding receive transform_in restarted finished reset_rx
  receive-regular_plain c b h = ground arith

  pub receive-stuff :
      (c : ℕ) (b : List ℕ)
      → receive s size c (at stuff) b ≡ (
          if length b == size
          then more (at invalid) []
          else more (at regular) (b ++ unstuff s c ∷ []))
  unfolding receive transform_in restarted finished reset_rx
  receive-stuff c b = ground arith

  pub recv_loop-step :
      (c : ℕ) (m m' : CFrame) (b b' input : List ℕ)
      → receive s size c m b ≡ more m' b'
      → recv_loop s size m b (c ∷ input) ≡ recv_loop s size m' b' input
  unfolding recv_loop
  recv_loop-step c m m' b b' input e = rw (e, recv_loop)

  pub recv_loop-break :
      (c : ℕ) (m : CFrame) (b input : List ℕ)
      → receive s size c m b ≡ break
      → recv_loop s size m b (c ∷ input) ≡ some (b, input)
  unfolding recv_loop
  recv_loop-break c m b input e = rw (e, recv_loop)

  pub recv_loop-noise :
      (xs b input : List ℕ)
      → All (λ x. x ≢ s.sofr) xs
      → recv_loop s size (at invalid) b (xs ++ input) ≡ recv_loop s size (at invalid) b input
  recv_loop-noise [] b input h = refl
  recv_loop-noise (x ∷ xs) b input h =
      recv_loop-step x _ _ b b (xs ++ input) (receive-invalid_other x b h.0)
      ∙ recv_loop-noise xs b input h.1

  module _ (v : IsValid s) where
    pub recv_loop-stuffed :
        (c : ℕ) (b input : List ℕ)
        → IsByte c
        → recv_loop s size (at regular) b (stuffed s c ++ input) ≡ (
            if length b == size
            then recv_loop s size (at invalid) [] input
            else recv_loop s size (at regular) (b ++ c ∷ []) input)
    recv_loop-stuffed c b input h = elim (Bool-cases (is_control s c)) [
      | inl e ↦ rw e (
          recv_loop-step s.esc _ _ b b (unstuff s c ∷ input) (receive-regular_esc b v)
          ∙ last (unstuff s c) (at stuff)
              (rw (receive-stuff (unstuff s c) b, unstuff_twice s c v.escmod_byte h)))
      | inr e ↦ rw e (last c (at regular) (receive-regular_plain c b e))
    ]
      where
        last :
            (x : ℕ) (m : CFrame)
            → receive s size x m b
              ≡ (if length b == size then more (at invalid) [] else more (at regular) (b ++ c ∷ []))
            → recv_loop s size m b (x ∷ input) ≡ (
                if length b == size
                then recv_loop s size (at invalid) [] input
                else recv_loop s size (at regular) (b ++ c ∷ []) input)
        last x m e = elim (Bool-cases (length b == size)) [
          | inl full ↦ rw full (recv_loop-step x m _ b _ input (rw full at e))
          | inr room ↦ rw room (recv_loop-step x m _ b _ input (rw room at e))
        ]

    pub recv_loop-encode :
        (p b input : List ℕ)
        → All IsByte p
        → length b + length p ≤ size
        → recv_loop s size (at regular) b (encode s p ++ input)
          ≡ recv_loop s size (at regular) (b ++ p) input
    unfolding encode
    recv_loop-encode [] b input h fits = rw append-nil
    recv_loop-encode (c ∷ cs) b input h fits =
        recv_loop s size (at regular) b ((stuffed s c ++ encode s cs) ++ input)
        ≡⟨ rw append_assoc (recv_loop-stuffed c b (encode s cs ++ input) h.0) ⟩
          (if length b == size
            then recv_loop s size (at invalid) [] (encode s cs ++ input)
            else recv_loop s size (at regular) (b ++ c ∷ []) (encode s cs ++ input))
        ≡⟨ ground (arith, fits) ⟩ recv_loop s size (at regular) (b ++ c ∷ []) (encode s cs ++ input)
        ≡⟨ recv_loop-encode cs (b ++ c ∷ []) input h.1 (omega (arith, length-append b (c ∷ []))) ⟩
          recv_loop s size (at regular) ((b ++ c ∷ []) ++ cs) input
        ≡⟨ rw append_assoc refl ⟩ recv_loop s size (at regular) (b ++ c ∷ cs) input ∎

    pub recv_loop-overflow :
        HidesMarks s
        → (p b input : List ℕ) → All IsByte p
        → length b ≤ size
        → size < length b + length p
        → recv_loop s size (at regular) b (encode s p ++ input)
          ≡ recv_loop s size (at invalid) [] input
    unfolding encode
    recv_loop-overflow hides [] b input h fits over = absurd (omega arith)
    recv_loop-overflow hides (c ∷ cs) b input h fits over =
        recv_loop s size (at regular) b ((stuffed s c ++ encode s cs) ++ input)
        ≡⟨ rw append_assoc (recv_loop-stuffed c b (encode s cs ++ input) h.0) ⟩
          (if length b == size
            then recv_loop s size (at invalid) [] (encode s cs ++ input)
            else recv_loop s size (at regular) (b ++ c ∷ []) (encode s cs ++ input))
        ≡⟨ elim (Bool-cases (length b == size)) [
          | inl full ↦ rw full (recv_loop-noise (encode s cs) [] input (unmarked cs))
          | inr room ↦ rw room (
              recv_loop-overflow hides cs (b ++ c ∷ []) input h.1
                (ground (arith, length-append b (c ∷ [])))
                (ground (arith, length-append b (c ∷ []))))
        ] ⟩
          recv_loop s size (at invalid) [] input ∎
      where
        unmarked : (p : List ℕ) → All (λ x. x ≢ s.sofr) (encode s p)
        unmarked p = All-weaken (Unmarked s) _ (λ x u. u.0) (encode s p) (encode-Unmarked v hides p)
