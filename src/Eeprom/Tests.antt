-- ===== src/Eeprom/Tests.antt =====
-- Bytes in the EEPROM.
use avr_ha_lib.Prelude.{◌≡◌, refl, true, [], ◌∷◌, arith}
use avr_ha_lib.Eeprom.{Eeprom, default_config, set_address, read}
use avr_ha_lib.Eeprom.Storing.{write_all, read_all, set_address-read_all}

abbrev empty : Eeprom
empty = record { address = 0; memory = λ x. 255 }

accepted : set_address default_config 100 empty ≡ (true, record empty { address = 100 })
unfolding set_address
accepted = refl

set_address-read_all_example :
    let (ok, s'') =
      set_address default_config 100
        (write_all (7 ∷ 0 ∷ 255 ∷ []) (record empty { address = 100 })) in
    (ok ≡ true) × (read_all 3 s'' ≡ 7 ∷ 0 ∷ 255 ∷ [])
set_address-read_all_example =
    set_address-read_all default_config 100 (7 ∷ 0 ∷ 255 ∷ []) empty
      (record empty { address = 100 }) accepted (omega arith) (omega arith)

-- The end of the configured range is checked when an address is set, not when it is counted on.
past_end : (read (record empty { address = 0xfff })).1 ≡ record empty { address = 0x1000 }
unfolding read
past_end = refl
