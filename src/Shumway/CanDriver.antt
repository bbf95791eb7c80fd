-- ===== src/Shumway/CanDriver.antt =====
-- tools/bootloader/legacy/shumway/lib/comm/can/can_drv_can128.{h,cpp}: the driver of the CAN
-- controller. The registers are numbers and a function from the number of a message object (MOb) to
-- its registers, a bit is set and cleared by arithmetic, and CANMSG is the byte at the index in
-- CANPAGE, which counts on at each access. Waiting for the controller is no step; what it transmits is
-- what the registers hold when `send` begins to wait. Which callback is registered is a number.
pub mod Transfer
pub mod Reception
mod Tests
use avr_ha_lib.Prelude.{
  ℕ, zero, suc, ◌+◌, ◌-◌, ◌*◌, ◌/◌, ◌%◌, ◌^◌, Bool, true, false, Option, none, some, List, [], ◌∷◌,
  ◌==◌, leb, if◌then◌else◌, length,
}

pub record Mob : Type 0 where
  pub cancdmob : ℕ
  pub canstmob : ℕ
  pub canidt1 : ℕ
  pub canidt2 : ℕ
  pub canidt3 : ℕ
  pub canidt4 : ℕ
  pub canidm1 : ℕ
  pub canidm2 : ℕ
  pub canidm3 : ℕ
  pub canidm4 : ℕ
  pub canmsg : ℕ → ℕ

-- The registers, and `_cb`.
pub record Can : Type 0 where
  pub cangcon : ℕ
  pub cangie : ℕ
  pub canie1 : ℕ
  pub canie2 : ℕ
  pub canbt1 : ℕ
  pub canbt2 : ℕ
  pub canbt3 : ℕ
  pub cansit : ℕ
  pub canpage : ℕ
  pub mobs : ℕ → Mob
  pub cb : Option ℕ

-- `cmd_t`, with as many data bytes as its `dlc` says; the identifier is `id.ext` or `id.std`.
pub record Cmd : Type 0 where
  pub mob_id : ℕ
  pub id : ℕ
  pub ide : Bool
  pub bytes : List ℕ

abbrev pub mob_num : ℕ
mob_num = 15

-- `r |= 1 << n` and `r &= ~(1 << n)`.
abbrev pub set_bit : ℕ → ℕ → ℕ
set_bit n r = if (r / 2 ^ n % 2) == 1 then r else r + 2 ^ n

abbrev pub clear_bit : ℕ → ℕ → ℕ
clear_bit n r = if (r / 2 ^ n % 2) == 1 then r - 2 ^ n else r

abbrev pub current : Can → Mob
current s = s.mobs (s.canpage / 16)

-- Writing registers of the MOb that CANPAGE selects.
abbrev pub modify : (Mob → Mob) → Can → Can
modify f s = record s { mobs = λ i. if i == s.canpage / 16 then f (s.mobs i) else s.mobs i }

-- CANPAGE after an access to CANMSG.
abbrev pub next_page : ℕ → ℕ
next_page p = p - p % 8 + (p % 8 + 1) % 8

unfoldable pub write_canmsg : ℕ → Can → Can
write_canmsg b s =
    let s' =
      modify (λ m. record m { canmsg = λ i. if i == s.canpage % 8 then b else m.canmsg i }) s in
    record s' { canpage = next_page s.canpage }

abbrev pub select_mob : ℕ → Can → Can
select_mob mob_id s = record s { canpage = mob_id * 16 % 256 }

abbrev pub is_extended_id : Mob → Bool
is_extended_id m = (m.cancdmob / 2 ^ 4 % 2) == 1

unfoldable pub set_can_id : ℕ → Bool → Mob → Mob
set_can_id id true m =
    let shifted = id * 2 ^ 3 % 2 ^ 32 in
    record m {
      canidt4 = shifted % 256;
      canidt3 = shifted / 2 ^ 8 % 256;
      canidt2 = shifted / 2 ^ 16 % 256;
      canidt1 = shifted / 2 ^ 24 % 256;
      cancdmob = set_bit 4 m.cancdmob;
    }
set_can_id id false m =
    let shifted = id * 2 ^ 5 % 2 ^ 16 in
    record m { canidt2 = shifted % 256; canidt1 = shifted / 2 ^ 8 % 256 }

unfoldable pub get_can_id : Mob → ℕ
get_can_id m =
    if is_extended_id m
    then (m.canidt1 * 2 ^ 24 + m.canidt2 * 2 ^ 16 + m.canidt3 * 2 ^ 8 + m.canidt4) / 2 ^ 3
    else (m.canidt1 * 2 ^ 8 + m.canidt2) / 2 ^ 5

unfoldable pub set_msk : ℕ → Bool → Mob → Mob
set_msk id true m =
    let shifted = id * 2 ^ 3 % 2 ^ 32 in
    record m {
      canidm4 = shifted % 256;
      canidm3 = shifted / 2 ^ 8 % 256;
      canidm2 = shifted / 2 ^ 16 % 256;
      canidm1 = shifted / 2 ^ 24 % 256;
      cancdmob = set_bit 4 m.cancdmob;
    }
set_msk id false m =
    let shifted = id * 2 ^ 5 % 2 ^ 16 in
    record m { canidm2 = shifted % 256; canidm1 = shifted / 2 ^ 8 % 256 }

abbrev pub set_dlc : ℕ → Mob → Mob
set_dlc dlc m = record m { cancdmob = m.cancdmob - m.cancdmob % 16 + dlc % 16 }

abbrev pub get_dlc : Mob → ℕ
get_dlc m = m.cancdmob % 16

abbrev pub enable_tx : Mob → Mob
enable_tx m = record m { cancdmob = set_bit 6 m.cancdmob }

abbrev pub enable_rx : Mob → Mob
enable_rx m = record m { cancdmob = set_bit 7 m.cancdmob }

-- The mask 0x30 keeps two bits.
abbrev pub re_enable_tx : Mob → Mob
re_enable_tx m = record m { canstmob = clear_bit 6 m.canstmob; cancdmob = m.cancdmob / 16 % 4 * 16 }

abbrev pub clear_status : Mob → Mob
clear_status m = record m { canstmob = 0 }

-- The loop of `send`.
unfoldable pub write_bytes : List ℕ → Can → Can
write_bytes [] s = s
write_bytes (b ∷ bs) s = write_bytes bs (write_canmsg b s)

-- The registers of the MOb when the waiting begins, and the state after it.
unfoldable pub send : Cmd → Can → Mob × Can
send cmd s =
    let addressed = modify (set_can_id cmd.id cmd.ide) (select_mob cmd.mob_id s) in
    let written = write_bytes cmd.bytes addressed in
    let started = modify (λ m. enable_tx (set_dlc (length cmd.bytes) m)) written in
    (current started, modify re_enable_tx started)

-- `true` when a callback is registered.
abbrev pub register_rx : ℕ → ℕ → Can → Bool × Can
register_rx mob_id cb s = elim s.cb [
  | some other ↦ (true, s)
  | none ↦
      let receiving = modify (λ m. enable_rx (clear_status m)) (select_mob mob_id s) in
      (
        false,
        record receiving {
          cangie = set_bit 5 (set_bit 7 s.cangie);
          canie1 = if leb 8 mob_id then set_bit (mob_id - 8) s.canie1 else s.canie1;
          canie2 = if leb 8 mob_id then s.canie2 else set_bit mob_id s.canie2;
          cb = some cb;
        },
      )
]

abbrev pub unregister_rx : ℕ → Can → Can
unregister_rx mob_id s = record (select_mob mob_id s) {
  cangie = clear_bit 5 s.cangie;
  canie1 = if leb 8 mob_id then clear_bit (mob_id - 8) s.canie1 else s.canie1;
  canie2 = if leb 8 mob_id then s.canie2 else clear_bit mob_id s.canie2;
  cb = none;
}

-- The bit RTRMSK is cleared, and IDEMSK set for an extended identifier.
unfoldable pub enable_msk : Cmd → Can → Can
enable_msk cmd s =
    modify
      (λ m.
        let masked = set_msk (2 ^ 32 - 1) cmd.ide (set_can_id cmd.id cmd.ide m) in
        let no_rtr = record masked { canidm4 = clear_bit 2 masked.canidm4 } in
        if cmd.ide then record no_rtr { canidm4 = set_bit 0 no_rtr.canidm4 } else no_rtr)
      (select_mob cmd.mob_id s)

unfoldable pub disable_msk : Cmd → Can → Can
disable_msk cmd s =
    modify
      (λ m.
        let masked = set_msk 0 cmd.ide m in record masked { canidm4 = clear_bit 0 masked.canidm4 })
      (select_mob cmd.mob_id s)

-- `get_mob`, from the value `__i` on; 0xff when no bit is set.
unfoldable pub get_mob : ℕ → ℕ → ℕ
get_mob zero sit = 0xff
get_mob (suc i) sit = let rest = get_mob i sit in if (sit / 2 ^ i % 2) == 1 then i else rest

-- The loop of the interrupt: the bytes from the index of CANPAGE on.
unfoldable pub read_bytes : ℕ → ℕ → Mob → List ℕ
read_bytes zero page m = []
read_bytes (suc n) page m = m.canmsg (page % 8) ∷ read_bytes n (next_page page) m

-- `ISR(CANIT_vect)`: the command that the callback is called with; `none` when there is no callback, or
-- when more bytes than `data` has are written to it.
unfoldable pub isr : Can → Option (ℕ × Cmd × Can)
isr s = elim s.cb [
  | none ↦ none
  | some cb ↦
      let mob_id = get_mob mob_num s.cansit in
      let selected =
        modify (λ m. record m { canstmob = clear_bit 5 m.canstmob }) (select_mob mob_id s) in
      let m = current selected in
      if leb (get_dlc m) 8
      then some (
        cb,
        record {
          mob_id = mob_id;
          id = get_can_id m;
          ide = is_extended_id m;
          bytes = read_bytes (get_dlc m) selected.canpage m;
        },
        record (modify (λ x. enable_rx (clear_status x)) selected) { canpage = s.canpage },
      )
      else none
]

-- `clear_all_mobs`, its rounds to go, and `init`; CANGCON gets ENASTB after SWRES.
abbrev pub cleared : Mob
cleared = record {
  cancdmob = 0;
  canstmob = 0;
  canidt1 = 0;
  canidt2 = 0;
  canidt3 = 0;
  canidt4 = 0;
  canidm1 = 0;
  canidm2 = 0;
  canidm3 = 0;
  canidm4 = 0;
  canmsg = λ i. 0;
}

unfoldable pub clear_mobs : ℕ → Can → Can
clear_mobs zero s = s
clear_mobs (suc i) s = clear_mobs i (modify (λ m. cleared) (record s { canpage = i * 16 % 256 }))

abbrev pub init : ℕ → ℕ → ℕ → Can → Can
init canbt1 canbt2 canbt3 s =
    let clear = clear_mobs mob_num (record s { cangcon = 1 }) in
    record clear {
      canbt1 = canbt1;
      canbt2 = canbt2;
      canbt3 = canbt3;
      cangcon = set_bit 1 clear.cangcon;
    }
