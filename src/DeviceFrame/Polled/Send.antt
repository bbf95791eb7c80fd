-- ===== src/DeviceFrame/Polled/Send.antt =====
-- What `CDeviceFrameNoInt::send` does with the base device.
use avr_ha_lib.Prelude.{
  ℕ, suc, ◌≡◌, refl, some, List, [], ◌∷◌, ◌++◌, arith, ap, length, ◌⊎◌, inl, inr,
}
use avr_ha_lib.CFrame.{
  Stuffing, CFrame, started, regular, invalid, start_frame, end_frame, transform_out, again,
}
use avr_ha_lib.CFrame.Frame.{stuffed, encode, frame}
use avr_ha_lib.DeviceFrame.Polled.{Call, wait, put, put_byte, put_all, send}

-- Each byte is put once the device is ready.
abbrev pub paced : List ℕ → List Call
paced [] = []
paced (b ∷ bs) = wait ∷ put b ∷ paced bs

paced-append : (xs ys : List ℕ) → paced (xs ++ ys) ≡ paced xs ++ paced ys
paced-append [] ys = refl
paced-append (x ∷ xs) ys = ap (λ l. wait ∷ put x ∷ l) (paced-append xs ys)

-- The bytes that a sequence of calls puts.
abbrev pub bytes : List Call → List ℕ
bytes [] = []
bytes (wait ∷ cs) = bytes cs
bytes (put b ∷ cs) = b ∷ bytes cs

pub bytes-paced : (bs : List ℕ) → bytes (paced bs) ≡ bs
bytes-paced [] = refl
bytes-paced (b ∷ bs) = ap (◌∷◌ b) (bytes-paced bs)

abbrev open_tx : CFrame
open_tx = record { tx = regular; rx = invalid }

put_byte_lem :
    (s : Stuffing) (f c : ℕ) (m : CFrame)
    → (m.tx ≡ started) ⊎ (m.tx ≡ regular)
    → put_byte s (suc (suc f)) c m ≡ some (paced (stuffed s c), record m { tx = regular })
unfolding put_byte transform_out again
put_byte_lem s f c m h = ground arith

-- Two rounds are enough for a byte: an escaped byte takes both.
put_all_lem :
    (s : Stuffing) (f : ℕ) (cs : List ℕ) (m : CFrame)
    → m.tx ≡ regular
    → put_all s (suc (suc f)) cs m ≡ some (paced (encode s cs), record m { tx = regular })
unfolding put_all encode
put_all_lem s f [] m h = ground arith
put_all_lem s f (c ∷ cs) m h = ground (
  arith,
  put_byte_lem s f c m (inr h),
  put_all_lem s f cs (record m { tx = regular }) refl,
  paced-append (stuffed s c) (encode s cs),
)

put_all-started :
    (s : Stuffing) (f c : ℕ) (cs : List ℕ)
    → put_all s (suc (suc f)) (c ∷ cs) (record { tx = started; rx = invalid })
      ≡ some (paced (encode s (c ∷ cs)), open_tx)
unfolding put_all encode
put_all-started s f c cs = ground (
  arith,
  put_byte_lem s f c (record { tx = started; rx = invalid }) (inl refl),
  put_all_lem s f cs open_tx refl,
  paced-append (stuffed s c) (encode s cs),
)

-- The calls that `send` should make: none for an empty payload, else one `put` for each byte of its frame,
-- after waiting for all but the start mark.
abbrev pub line : Stuffing → List ℕ → List Call
line s [] = []
line s (c ∷ cs) = put s.sofr ∷ paced (encode s (c ∷ cs) ++ s.eofr ∷ [])

pub bytes-line : (s : Stuffing) (c : ℕ) (cs : List ℕ) → bytes (line s (c ∷ cs)) ≡ frame s (c ∷ cs)
bytes-line s c cs = ap (◌∷◌ s.sofr) (bytes-paced (encode s (c ∷ cs) ++ s.eofr ∷ []))

-- For every stuffing configuration and every payload of a size that FLT and an `int` can hold, if the
-- base device becomes ready whenever it is waited for, `send` terminates, with two or more rounds of
-- fuel for each byte. It returns the size of the payload, and puts nothing if that is empty, else
-- exactly the payload's frame: the start mark without waiting for the device, and each other byte
-- after waiting until the device is ready.
pub send-line :
    (s : Stuffing) (f : ℕ) (p : List ℕ) → send s (suc (suc f)) p ≡ some (length p, line s p)
unfolding send start_frame end_frame
send-line s f [] = refl
send-line s f (c ∷ cs) =
    ground (arith, put_all-started s f c cs, paced-append (encode s (c ∷ cs)) (s.eofr ∷ []))
