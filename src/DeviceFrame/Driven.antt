-- ===== src/DeviceFrame/Driven.antt =====
-- `CDeviceFrame`: one message in each direction, moved byte by byte by the interrupts of the base
-- device. An access behind a payload array is a fault, `none`.
pub mod Transmit
pub mod Reception
use avr_ha_lib.Prelude.{
  ℕ, zero, suc, ◌+◌, ◌%◌, Bool, true, false, not, ◌&&◌, Option, none, some, List, [], ◌∷◌, ◌++◌,
  ◌==◌, ltb, leb, if◌then◌else◌, length, get_elem?, set, take,
}
use mathlib.Core.Option
use avr_ha_lib.CFrame.{
  Stuffing, CFrame, fresh, start_frame, end_frame, transform_out, transform_in, again, restarted,
  finished, reset_rx, reset_tx, sending, ready_to_start,
}

-- `mobState_t`: the position, and the message with its size and payload array.
pub record MobState : Type 0 where
  pub position : ℕ
  pub size : ℕ
  pub payload : List ℕ

-- The members, and of the base device the bytes put and whether its ready interrupt is on.
pub record Device : Type 0 where
  pub recv_mob : MobState
  pub send_mob : MobState
  pub cframe : CFrame
  pub out : List ℕ
  pub ready_on : Bool

-- The template arguments and the two delegates; `none` is an empty delegate. `flt` is 2 ^ w for
-- the w-bit type of sizes.
pub record Setup : Type 0 where
  pub stuffing : Stuffing
  pub pl : ℕ
  pub flt : ℕ
  pub on_ready : Option (Device → Device)
  pub on_receive : Option (Device → Device)

abbrev pub call : Option (Device → Device) → Device → Device
call none d = d
call (some f) d = f d

-- The constructor, on arrays of `pl` bytes that hold whatever they hold.
unfoldable pub init : List ℕ → List ℕ → Device
init received sent = record {
  recv_mob = record { position = 0; size = 0; payload = received };
  send_mob = record { position = 0; size = 0; payload = sent };
  cframe = fresh;
  out = [];
  ready_on = false;
}

abbrev pub put : ℕ → Device → Device
put b d = record d { out = d.out ++ b ∷ [] }

-- `payload[i] = data[i]` for each byte of `data`.
unfoldable pub overwrite : List ℕ → List ℕ → Option (List ℕ)
overwrite xs [] = some xs
overwrite [] (c ∷ cs) = none
overwrite (x ∷ xs) (c ∷ cs) = Option.map (λ r. c ∷ r) (overwrite xs cs)

module _ (k : Setup) where
  unfoldable pub send_on_ready : Device → Device
  send_on_ready d = if not (sending d.cframe) then call k.on_ready d else d

  unfoldable pub send_on_receive : Device → Device
  send_on_receive d = if finished d.cframe then call k.on_receive d else d

  store : ℕ → Device → Option Device
  store c d =
      if ltb d.recv_mob.size (length d.recv_mob.payload)
      then some (record d {
        recv_mob = record {
          position = d.recv_mob.position;
          size = (d.recv_mob.size + 1) % k.flt;
          payload = set d.recv_mob.payload d.recv_mob.size c;
        };
      })
      else none

  -- What `getonReceive` does once the machine has taken the byte.
  unfoldable pub received : Bool → ℕ → Device → Option Device
  unfolding store
  received got c d =
      if got
      then store c d
      else if restarted d.cframe
      then some (record d {
        recv_mob = record {
          position = d.recv_mob.position;
          size = 0;
          payload = d.recv_mob.payload;
        };
      })
      else if finished d.cframe
      then some (send_on_receive d)
      else some d

  -- `getonReceive`, for the byte `c` that the base device delivers.
  unfoldable pub get_on_receive : ℕ → Device → Option Device
  unfolding received
  get_on_receive c d =
      let m = if d.recv_mob.position == k.pl then reset_rx d.cframe else d.cframe in
      let (got, c', m') = transform_in k.stuffing c m in received got c' (record d { cframe = m' })

  -- The byte of the payload, stuffed; the position moves on unless the byte needs another round.
  put_stuffed : Device → Option Device
  put_stuffed d = elim (get_elem? d.send_mob.payload d.send_mob.position) [
    | none ↦ none
    | some c ↦
        let (b, m) = transform_out k.stuffing c d.cframe in
        some (
          put b (record d {
            cframe = m;
            send_mob = record {
              position = if again m then d.send_mob.position else (d.send_mob.position + 1) % k.flt;
              size = d.send_mob.size;
              payload = d.send_mob.payload;
            };
          }))
  ]

  unfoldable pub put_on_ready : Device → Option Device
  unfolding put_stuffed
  put_on_ready d =
      if ready_to_start d.cframe && (d.send_mob.position == 0 && ltb 0 d.send_mob.size)
      then (let (b, m) = start_frame k.stuffing d.cframe in some (put b (record d { cframe = m })))
      else if not (sending d.cframe)
      then some (send_on_ready (record d { ready_on = false }))
      else if d.send_mob.position == d.send_mob.size
      then (let (b, m) = end_frame k.stuffing d.cframe in some (put b (record d { cframe = m })))
      else put_stuffed d

  -- `send`: the result and the device; the ready interrupt is now on.
  unfoldable pub send : List ℕ → Device → Option (ℕ × Device)
  send p d =
      if sending d.cframe
      then some (0, d)
      else Option.map
          (λ payload. (
            length p,
            record d {
              send_mob = record { position = 0; size = length p; payload = payload };
              cframe = reset_tx d.cframe;
              ready_on = true;
            },
          ))
          (overwrite d.send_mob.payload p)

  -- `recv` into a buffer of `size` bytes: the bytes copied, and the device.
  unfoldable pub recv : ℕ → Device → List ℕ × Device
  recv size d =
      if finished d.cframe && leb d.recv_mob.size size
      then (take d.recv_mob.size d.recv_mob.payload, record d { cframe = reset_rx d.cframe })
      else ([], d)

  -- Ready interrupts, one after another, and bytes that arrive one after another.
  unfoldable pub ready_interrupts : ℕ → Device → Option Device
  ready_interrupts zero d = some d
  ready_interrupts (suc n) d = elim (put_on_ready d) [
    | none ↦ none
    | some d' ↦ ready_interrupts n d'
  ]

  unfoldable pub arrive : List ℕ → Device → Option Device
  arrive [] d = some d
  arrive (c ∷ cs) d = elim (get_on_receive c d) [ none ↦ none | some d' ↦ arrive cs d' ]
