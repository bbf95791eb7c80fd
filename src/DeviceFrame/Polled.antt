-- ===== src/DeviceFrame/Polled.antt =====
-- `CDeviceFrameNoInt`. The base device is the calls that `send` makes of it, in their order, and the bytes
-- that `get` has still to deliver to `recv`. Payloads and buffers are of sizes that
-- FLT, the type of sizes, and an `int` can hold.
pub mod Send
pub mod Rounds
pub mod Receive
pub mod Exchange
use avr_ha_lib.Prelude.{
  ℕ, zero, suc, Bool, Option, none, some, List, [], ◌∷◌, ◌++◌, ◌==◌, if◌then◌else◌, length,
}
use mathlib.Core.Option
use avr_ha_lib.CFrame.{
  Stuffing, CFrame, fresh, start_frame, end_frame, transform_out, transform_in, again, restarted,
  finished, reset_rx,
}

-- What `send` does with the base device: the loop that waits until it is ready, which ends when it is, and
-- a `put`.
pub data Call : Type 0 where
  wait : Call
  put : ℕ → Call

-- The body of the `for` loop, a `do` loop on fuel: the calls made, and the machine.
unfoldable pub put_byte : Stuffing → ℕ → ℕ → CFrame → Option (List Call × CFrame)
put_byte s zero c m = none
put_byte s (suc f) c m =
    let (b, m') = transform_out s c m in
    let rest = put_byte s f c m' in
    if again m'
    then Option.map (λ r. (wait ∷ put b ∷ r.0, r.1)) rest
    else some (wait ∷ put b ∷ [], m')

-- The `for` loop over the payload.
unfoldable pub put_all : Stuffing → ℕ → List ℕ → CFrame → Option (List Call × CFrame)
put_all s f [] m = some ([], m)
put_all s f (c ∷ cs) m = elim (put_byte s f c m) [
  | none ↦ none
  | some (bs, m') ↦ Option.map (λ r. (bs ++ r.0, r.1)) (put_all s f cs m')
]

-- `send`: the result, and the calls made. The start mark is put without waiting.
unfoldable pub send : Stuffing → ℕ → List ℕ → Option (ℕ × List Call)
send s f [] = some (0, [])
send s f (c ∷ cs) =
    let (b, m) = start_frame s fresh in
    Option.map (λ r. (length (c ∷ cs), put b ∷ (r.0 ++ (wait ∷ put (end_frame s r.1).0 ∷ []))))
      (put_all s f (c ∷ cs) m)

-- One round of the loop of `recv`: it breaks, or goes on with the machine and the bytes stored.
pub data Round : Type 0 where
  break : Round
  more : CFrame → List ℕ → Round

unfoldable pub receive : Stuffing → ℕ → ℕ → CFrame → List ℕ → Round
receive s size c m stored =
    let (got, c', m') = transform_in s c m in
    if got
    then if length stored == size then more (reset_rx m') [] else more m' (stored ++ c' ∷ [])
    else if restarted m'
    then more m' []
    else if finished m'
    then break
    else more m' stored

-- The loop, over what the device delivers; `none` means that it still waits at the end of it.
-- The rest of the input comes back with the message.
unfoldable pub recv_loop : Stuffing → ℕ → CFrame → List ℕ → List ℕ → Option (List ℕ × List ℕ)
recv_loop s size m stored [] = none
recv_loop s size m stored (c ∷ input) = elim (receive s size c m stored) [
  | break ↦ some (stored, input)
  | more m' stored' ↦ recv_loop s size m' stored' input
]

unfoldable pub recv : Stuffing → ℕ → List ℕ → Option (List ℕ × List ℕ)
recv s size input = recv_loop s size fresh [] input
