-- ===== src/DeviceFrame/Polled/Exchange.antt =====
-- `CDeviceFrameNoInt::send` on one side of a line and `recv` on the other.
use avr_ha_lib.Prelude.{
  ℕ, suc, ◌≤◌, ◌≡◌, ◌≢◌, refl, ap, sym, ◌∙◌, some, List, [], ◌∷◌, ◌++◌, length, All, ◌⊎◌, inl, inr,
}
use mathlib.Core.Path.{subst}
use avr_ha_lib.CFrame.{Stuffing, old_readable, readable, ascii}
use avr_ha_lib.CFrame.Frame.{
  encode, IsByte, IsValid, HidesMarks, Unmarked, encode-Unmarked, old_readable-IsValid,
  readable-IsValid, ascii-IsValid, old_readable-HidesMarks, readable-HidesMarks, ascii-HidesMarks,
}
use avr_ha_lib.DeviceFrame.Polled.{Call, send, recv}
use avr_ha_lib.DeviceFrame.Polled.Send.{bytes, line, bytes-line, send-line}
use avr_ha_lib.DeviceFrame.Polled.Receive.{recv-frame}

-- For a valid configuration, a payload of bytes, of a size that FLT and an `int` can hold, that is not
-- empty and that the receiver's buffer has room for, and a base device that becomes ready whenever it
-- is waited for: `send` terminates, with two or more rounds of fuel for each byte, and if the bytes
-- that it puts arrive, behind others that are no start mark and before any others, `recv` returns the
-- payload and leaves what comes behind.
pub send-recv :
    {s : Stuffing} (v : IsValid s) (f size : ℕ) (noise p rest : List ℕ)
    → p ≢ []
    → All (λ x. x ≢ s.sofr) noise
    → All IsByte p
    → length p ≤ size
    → (calls : List Call) × (send s (suc (suc f)) p ≡ some (length p, calls))
      × (recv s size (noise ++ (bytes calls ++ rest)) ≡ some (p, rest))
send-recv v f size noise [] rest full quiet all fits = absurd (full refl)
send-recv {s} v f size noise (c ∷ cs) rest full quiet all fits = (
  line s (c ∷ cs),
  send-line s f (c ∷ cs),
  ap (λ l. recv s size (noise ++ (l ++ rest))) (bytes-line s c cs)
      ∙ recv-frame v size noise (c ∷ cs) rest quiet all fits,
)

-- The configurations that cframe.h provides.
abbrev pub Provided : Stuffing → Type 0
Provided s = (s ≡ old_readable) ⊎ ((s ≡ readable) ⊎ (s ≡ ascii))

abbrev Marks : Stuffing → Type 0
Marks s = IsValid s × HidesMarks s

Provided-Marks : (s : Stuffing) → Provided s → Marks s
Provided-Marks s (inl e) = subst Marks (sym e) (old_readable-IsValid, old_readable-HidesMarks)
Provided-Marks s (inr (inl e)) = subst Marks (sym e) (readable-IsValid, readable-HidesMarks)
Provided-Marks s (inr (inr e)) = subst Marks (sym e) (ascii-IsValid, ascii-HidesMarks)

-- In each of the three configurations that cframe.h provides, and with two or more rounds of fuel for
-- each byte, what `send` puts for a payload that is not empty begins with the start mark and ends with
-- the end mark, and neither mark stands in between, whatever the payload.
pub send-Unmarked :
    (s : Stuffing) (f : ℕ) (p : List ℕ)
    → Provided s
    → p ≢ []
    → (calls : List Call) × (between : List ℕ) × (send s (suc (suc f)) p ≡ some (length p, calls))
      × (bytes calls ≡ s.sofr ∷ (between ++ s.eofr ∷ []))
      × All (Unmarked s) between
send-Unmarked s f [] provided full = absurd (full refl)
send-Unmarked s f (c ∷ cs) provided full =
    let (v, hides) = Provided-Marks s provided in
    (
      line s (c ∷ cs),
      encode s (c ∷ cs),
      send-line s f (c ∷ cs),
      bytes-line s c cs,
      encode-Unmarked v hides (c ∷ cs),
    )
