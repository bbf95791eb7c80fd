-- ===== src/Shumway/CanDriver/Tests.antt =====
-- A CAN message between two nodes.
use avr_ha_lib.Prelude.{
  ℕ, ◌*◌, ◌/◌, ◌%◌, ◌^◌, ◌≡◌, refl, inl, true, false, Bool, none, some, List, [], ◌∷◌, ◌==◌,
  if◌then◌else◌, arith,
}
use avr_ha_lib.Shumway.CanDriver.{
  Can, Cmd, cleared, is_extended_id, set_can_id, get_can_id, get_dlc, read_bytes, re_enable_tx,
  send, get_mob, mob_num, isr, enable_msk, set_msk, disable_msk,
}
use avr_ha_lib.Shumway.CanDriver.Transfer.{send-registers}
use avr_ha_lib.Shumway.CanDriver.Reception.{IsHighest, Arrived, isr-send}

abbrev idle : Can
idle = record {
  cangcon = 2;
  cangie = 0;
  canie1 = 0;
  canie2 = 0;
  canbt1 = 0;
  canbt2 = 0;
  canbt3 = 0;
  cansit = 0;
  canpage = 0;
  mobs = λ i. cleared;
  cb = none;
}

abbrev cmd : Cmd
cmd = record { mob_id = 1; id = 199; ide = true; bytes = 5 ∷ 6 ∷ 7 ∷ [] }

send-registers_example :
    let (m, s') = send cmd idle in
    (get_can_id m ≡ 199)
    × (is_extended_id m ≡ true)
    × (get_dlc m ≡ 3)
    × (read_bytes 3 (1 * 16) m ≡ 5 ∷ 6 ∷ 7 ∷ [])
    × (m.cancdmob / 2 ^ 6 % 2 ≡ 1)
    × (s'.mobs 0 ≡ (if 0 == 1 then re_enable_tx m else cleared))
send-registers_example =
    send-registers cmd idle (omega arith) (omega arith) 0 (inl (refl, omega arith))

abbrev receiver : Can
receiver = record idle { cansit = 2 ^ 14; mobs = λ i. (send cmd idle).0; cb = some 42 }

highest : IsHighest (2 ^ 14) mob_num 14
highest = record { below = omega arith; reports = refl; above = λ j h k. absurd (omega arith) }

arrived : Arrived (send cmd idle).0 (send cmd idle).0
arrived = record {
  idt1 = refl;
  idt2 = refl;
  idt3 = refl;
  idt4 = refl;
  kind = refl;
  size = refl;
  content = λ i. refl;
}

isr-send_example :
    (r' : Can) × (isr receiver ≡ some (42, record cmd { mob_id = 14 }, r'))
    × (r'.canpage ≡ 0)
    × ((r'.mobs 14).canstmob ≡ 0)
    × ((r'.mobs 14).cancdmob / 2 ^ 7 % 2 ≡ 1)
isr-send_example =
    isr-send cmd idle receiver 42 14 (omega arith) (omega arith) (inl (refl, omega arith)) refl
      highest arrived

-- A standard identifier in a MOb that had an extended one is taken for an extended one.
still_extended :
    let m = set_can_id 5 false (set_can_id 199 true cleared) in
    ◌≡◌ {A = Bool × Bool} (is_extended_id m, get_can_id m == 5) (true, false)
unfolding set_can_id get_can_id
still_extended = refl

-- No MOb reports: the number is that of none.
no_mob : get_mob mob_num 0 ≡ 0xff
unfolding get_mob
no_mob = refl

-- The filter of an extended identifier takes all of its bits, and is taken back.
filter :
    let m = (enable_msk cmd idle).mobs 1 in
    ◌≡◌ {A = List ℕ}
      (m.canidm1 ∷ m.canidm2 ∷ m.canidm3 ∷ m.canidm4 ∷ [])
      (255 ∷ 255 ∷ 255 ∷ 249 ∷ [])
unfolding enable_msk set_msk set_can_id
filter = refl

no_filter :
    let m = (disable_msk cmd (enable_msk cmd idle)).mobs 1 in
    ◌≡◌ {A = List ℕ} (m.canidm1 ∷ m.canidm2 ∷ m.canidm3 ∷ m.canidm4 ∷ []) (0 ∷ 0 ∷ 0 ∷ 0 ∷ [])
unfolding enable_msk disable_msk set_msk set_can_id
no_filter = refl
