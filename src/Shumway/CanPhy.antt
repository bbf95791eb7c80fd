-- ===== src/Shumway/CanPhy.antt =====
-- tools/bootloader/legacy/shumway/s_can_phy/S_Can_Phy.{h,cpp}, with `get_own_id` of
-- lib/board/board_drv_ktb_can128.h: the server between the messages and the CAN port. What it asks of
-- the CAN driver is kept as a list of commands, in order.
pub mod Fragments
pub mod Receiving
mod Tests
use avr_ha_lib.Prelude.{
  ℕ, zero, suc, ◌+◌, ◌-◌, ◌*◌, ◌/◌, ◌%◌, ◌^◌, Bool, true, false, not, ◌||◌, Option, none, some,
  List, [], ◌∷◌, ◌++◌, ◌==◌, ltb, if◌then◌else◌, length, get_or,
}
use avr_ha_lib.Shumway.Memory.{Pointer, load, store, attach, get_attached}
use avr_ha_lib.Shumway.Kernel.{
  Message, message, set_sender_id, toggle_direction, raise_visits, direction_up,
}
use avr_ha_lib.Shumway.Signal
use avr_ha_lib.Shumway.Server.{header_size, World, mediate, release, ◌>>=◌}

-- MOb_0 and MOb_1, as the constructor sets them.
abbrev pub rx_mob_id : ℕ
rx_mob_id = 0

abbrev pub tx_mob_id : ℕ
tx_mob_id = 1

-- The number of data bytes of a CAN message.
abbrev pub data_len : ℕ
data_len = 8

-- sizeof(i_hdr_phy_t): the identifier, then the length.
abbrev pub phy_header_size : ℕ
phy_header_size = 5

abbrev pub get_own_id : ℕ
get_own_id = 199

-- A call of the CAN driver with an extended identifier; a frame's bytes are the first `dlc` of its data.
pub data Command : Type 0 where
  send_frame : ℕ → ℕ → List ℕ → Command
  enable_msk : ℕ → ℕ → Command
  disable_msk : ℕ → Command
  unregister_rx : ℕ → Command

-- A `uint32_t`, its low byte first.
abbrev pub id_bytes : ℕ → List ℕ
id_bytes n = n % 256 ∷ (n / 2 ^ 8 % 256) ∷ (n / 2 ^ 16 % 256) ∷ (n / 2 ^ 24 % 256) ∷ []

abbrev pub id_value : List ℕ → ℕ
id_value bs =
    get_or bs 0 0 + 2 ^ 8 * get_or bs 1 0 + 2 ^ 16 * get_or bs 2 0 + 2 ^ 24 * get_or bs 3 0

-- The loop that sends the `len` bytes at `pos` behind the pointer, `i` of them sent; `none` also
-- means that the fuel ran out.
unfoldable pub frames : ℕ → ℕ → Pointer → ℕ → ℕ → ℕ → World → Option (List Command)
frames zero action ptr pos len i w = none
frames (suc fuel) action ptr pos len i w =
    let dlc = if ltb (len - i) (data_len - 1) then len - i else data_len - 1 in
    do
      fragment ← load ptr pos dlc w.memory
      let sent = send_frame tx_mob_id get_own_id (action ∷ fragment)
      (if ltb ((i + dlc) % 256) len
          then (do
            rest ← frames fuel action ptr (pos + dlc) len ((i + dlc) % 256) w
            some (sent ∷ rest))
          else some (sent ∷ []))

-- `_reply_message`
abbrev pub reply_message : ℕ → Message → ℕ → World → World
reply_message id m reply_sig w =
    mediate (toggle_direction (set_sender_id id (record m { sig_id = reply_sig }))) w

module _ (id : ℕ) where
  -- SIGNAL_ID_OUT and SIGNAL_ISP_OUT
  unfoldable pub send_out : ℕ → Option Pointer → ℕ → World → Option (List Command × World)
  send_out fuel none key w = some ([], release key w)
  send_out fuel (some ptr) key w = do
    size ← load ptr 0 1 w.memory
    action ← load ptr 1 1 w.memory
    let len = (get_or size 0 0 + 256 - header_size) % 256
    sent ← frames fuel (get_or action 0 0) ptr header_size len 0 w
    some (sent, release key w)

  -- SIGNAL_ENABLE_ID_FILTER
  unfoldable pub enable_filter :
      Option Pointer → ℕ → Message → World → Option (List Command × World)
  enable_filter none key m w = some ([], release key w)
  enable_filter (some ptr) key m w = do
    bs ← load ptr 0 4 w.memory
    some (enable_msk rx_mob_id (id_value bs) ∷ [], reply_message id m Signal.id_filter_enabled w)

  unfoldable pub receive : ℕ → Message → World → Option (List Command × World)
  receive fuel m w =
      let key = m.msg_id in
      let mem = attach key w.memory in
      if m.sender_id == id
      then some ([], release key w)
      else if m.sig_id == Signal.id_out || m.sig_id == Signal.isp_out
      then send_out fuel mem key w
      else if m.sig_id == Signal.enable_id_filter
      then enable_filter mem key m w
      else some (
        if m.sig_id == Signal.appl_start
            then disable_msk rx_mob_id ∷ unregister_rx rx_mob_id ∷ []
            else [],
        mediate (raise_visits m) w,
      )

  -- The callback of the CAN driver, with the identifier and the data of the CAN message.
  unfoldable pub can_irq_receive : ℕ → List ℕ → World → Option World
  can_irq_receive ext bs w =
      let (p, key, memory) = get_attached (phy_header_size + length bs) w.memory in
      elim p [
        | none ↦ some (record w { memory = memory })
        | some ptr ↦ do
          k ← key
          headed ← store ptr 0 (id_bytes ext ++ ((phy_header_size + length bs) % 256) ∷ []) memory
          filled ← store ptr phy_header_size bs headed
          some (mediate (message Signal.phy_in k id direction_up) (record w { memory = filled }))
      ]
