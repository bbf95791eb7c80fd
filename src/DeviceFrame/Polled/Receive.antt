-- ===== src/DeviceFrame/Polled/Receive.antt =====
-- What `CDeviceFrameNoInt::recv` makes of the bytes on the line.
use avr_ha_lib.Prelude.{
  ℕ, ◌≤◌, ◌<◌, ◌≡◌, ◌≢◌, refl, sym, ap, some, List, [], ◌∷◌, ◌++◌, append_assoc, arith, ◌∙◌, length,
  length-append, ◌⊎◌, inl, inr, All,
}
use mathlib.Core.Path.{◌≡⟨◌⟩◌, ◌∎}
use avr_ha_lib.CFrame.{Stuffing, CFrame, fresh, regular, invalid, transform_in}
use avr_ha_lib.CFrame.Frame.{encode, frame, IsByte, IsValid, HidesMarks}
use avr_ha_lib.DeviceFrame.Polled.{Round, break, more, receive, recv_loop, recv}
use avr_ha_lib.DeviceFrame.Polled.Rounds.{
  at, recv_loop-started, receive-invalid_other, receive-invalid_sofr, receive-regular_sofr,
  receive-regular_eofr, recv_loop-step, recv_loop-break, recv_loop-noise, recv_loop-encode,
  recv_loop-overflow,
}

-- What the line carries before and after a frame.
module _ {s : Stuffing} (v : IsValid s) (size : ℕ) where
  recv-opened :
      (p rest : List ℕ)
      → recv_loop s size fresh [] (frame s p ++ rest)
        ≡ recv_loop s size (at regular) [] (encode s p ++ s.eofr ∷ rest)
  recv-opened p rest =
      recv_loop-step s size s.sofr _ _ [] [] ((encode s p ++ s.eofr ∷ []) ++ rest)
        (receive-invalid_sofr s size [] v.sofr_small)
      ∙ (recv_loop-started s size [] _
          ∙ ap (recv_loop s size (at regular) []) (append_assoc (encode s p) (s.eofr ∷ []) rest))

  -- For a valid configuration: whatever other bytes come before the start mark, a frame whose payload of
  -- bytes fits is received whole and ends the call; the bytes after it are left for the next call.
  pub recv-frame :
      (noise p rest : List ℕ)
      → All (λ x. x ≢ s.sofr) noise
      → All IsByte p
      → length p ≤ size
      → recv s size (noise ++ (frame s p ++ rest)) ≡ some (p, rest)
  unfolding recv
  recv-frame noise p rest n h fits =
      recv_loop s size fresh [] (noise ++ (frame s p ++ rest))
      ≡⟨ recv_loop-noise s size noise [] (frame s p ++ rest) n ⟩
        recv_loop s size fresh [] (frame s p ++ rest)
      ≡⟨ recv-opened p rest ⟩ recv_loop s size (at regular) [] (encode s p ++ (s.eofr ∷ rest))
      ≡⟨ recv_loop-encode s size v p [] (s.eofr ∷ rest) h (omega arith) ⟩
        recv_loop s size (at regular) p (s.eofr ∷ rest)
      ≡⟨ recv_loop-break s size s.eofr (at regular) p rest
          (receive-regular_eofr s size p v.eofr_small) ⟩
        some (p, rest) ∎

  -- If the configuration is valid and escaping hides its marks (no changed byte is escaped itself, so
  -- the modifier is not zero), a frame of bytes whose payload does not fit is dropped whole, and
  -- reception starts afresh behind it.
  pub recv-oversize :
      HidesMarks s
      → (p rest : List ℕ) → All IsByte p
      → size < length p
      → recv s size (frame s p ++ rest) ≡ recv s size rest
  unfolding recv
  recv-oversize hides p rest h over =
      recv_loop s size fresh [] (frame s p ++ rest)
      ≡⟨ recv-opened p rest ⟩ recv_loop s size (at regular) [] (encode s p ++ (s.eofr ∷ rest))
      ≡⟨ recv_loop-overflow s size v hides p [] (s.eofr ∷ rest) h (omega arith) (omega arith) ⟩
        recv_loop s size (at invalid) [] (s.eofr ∷ rest)
      ≡⟨ recv_loop-step s size s.eofr _ _ [] [] rest
          (receive-invalid_other s size s.eofr [] (λ e. v.sofr_eofr (sym e))) ⟩
        recv_loop s size fresh [] rest ∎

  -- For a valid configuration: a frame that breaks off, its end mark lost, gives way to the one that starts
  -- behind it, if both hold bytes that fit.
  pub recv-truncated :
      (q p rest : List ℕ)
      → All IsByte q
      → All IsByte p
      → length q ≤ size
      → length p ≤ size
      → recv s size (s.sofr ∷ (encode s q ++ (frame s p ++ rest))) ≡ some (p, rest)
  unfolding recv
  recv-truncated q p rest hq hp fq fp =
      recv_loop s size fresh [] (s.sofr ∷ (encode s q ++ (frame s p ++ rest)))
      ≡⟨ opened ⟩ recv_loop s size (at regular) [] (encode s q ++ (frame s p ++ rest))
      ≡⟨ recv_loop-encode s size v q [] (frame s p ++ rest) hq (omega arith) ⟩
        recv_loop s size (at regular) q (frame s p ++ rest)
      ≡⟨ again_opened ⟩ recv_loop s size fresh [] (frame s p ++ rest)
      ≡⟨ (unfold recv in recv-frame [] p rest tt hp fp) ⟩ some (p, rest) ∎
    where
      opened :
          recv_loop s size fresh [] (s.sofr ∷ (encode s q ++ (frame s p ++ rest)))
          ≡ recv_loop s size (at regular) [] (encode s q ++ (frame s p ++ rest))
      opened =
          recv_loop-step s size s.sofr _ _ [] [] _ (receive-invalid_sofr s size [] v.sofr_small)
          ∙ recv_loop-started s size [] _

      again_opened :
          recv_loop s size (at regular) q (frame s p ++ rest)
          ≡ recv_loop s size fresh [] (frame s p ++ rest)
      again_opened =
          recv_loop-step s size s.sofr _ _ q [] _
            (receive-regular_sofr s size q v.sofr_small v.sofr_eofr)
          ∙ sym (
              recv_loop-step s size s.sofr _ _ [] [] _
                (receive-invalid_sofr s size [] v.sofr_small))

-- Whatever arrives, no more than `size` bytes are ever stored.
receive-bound :
    (s : Stuffing) (size c : ℕ) (m : CFrame) (b : List ℕ) {m' : CFrame} {b' : List ℕ}
    → length b ≤ size
    → receive s size c m b ≡ more m' b'
    → length b' ≤ size
unfolding receive
receive-bound s size c m b h e = ground (arith, length-append b ((transform_in s c m).1 ∷ []))

Round-cases : (r : Round) → (r ≡ break) ⊎ ((m : CFrame) × (b : List ℕ) × (r ≡ more m b))
Round-cases break = inl refl
Round-cases (more m b) = inr (m, b, refl)

recv_loop-bound :
    (s : Stuffing) (size : ℕ) (m : CFrame) (b input : List ℕ) {p rest : List ℕ}
    → length b ≤ size
    → recv_loop s size m b input ≡ some (p, rest)
    → length p ≤ size
unfolding recv_loop
recv_loop-bound s size m b [] h e = cc
recv_loop-bound s size m b (c ∷ input) h e = elim (Round-cases (receive s size c m b)) [
  | inl q ↦ ground (arith, recv_loop-break s size c m b input q)
  | inr (m', b', q) ↦
      recv_loop-bound s size m' b' input (receive-bound s size c m b h q)
        (sym (recv_loop-step s size c m m' b b' input q) ∙ e)
]

-- Whatever bytes arrive, a message that `recv` returns has at most `size` bytes.
pub recv-bound :
    (s : Stuffing) (size : ℕ) (input : List ℕ) {p rest : List ℕ}
    → recv s size input ≡ some (p, rest)
    → length p ≤ size
unfolding recv
recv-bound s size input e = recv_loop-bound s size fresh [] input (omega arith) e
