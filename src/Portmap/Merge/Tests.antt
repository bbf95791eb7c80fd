-- ===== src/Portmap/Merge/Tests.antt =====
-- A port map that is written.
use avr_ha_lib.Prelude.{◌≡◌, refl, none, some, List, [], ◌∷◌, inl, arith}
use avr_ha_lib.Portmap.Text.{codes}
use avr_ha_lib.Portmap.Uc.{get_target_controller, atmega32}
use avr_ha_lib.Portmap.Description.{PinBlock, Portmap}
use avr_ha_lib.Portmap.Layout.{Member, generate_pin_blocks}
use avr_ha_lib.Portmap.Parser.Portmaps.Whole.{PortmapOk}
use avr_ha_lib.Portmap.Merge.Made.{generate_pin_blocks-made}

abbrev led : PinBlock
led = record { identifier = codes "led"; line = 1; port = b'b'; first_pin = 2; last_pin = 5 }

abbrev board : Portmap
board = record {
  sequence_number = 0;
  identifier = codes "P";
  line = 1;
  target_controller = none;
  properties = [];
  pin_blocks = led ∷ [];
  vports = [];
}

named : get_target_controller (codes "ATmega32") ≡ some atmega32
unfolding get_target_controller
named = refl

board-PortmapOk : PortmapOk (some atmega32) board
board-PortmapOk = (
  (atmega32, refl, (((b'b', refl, refl), (omega arith, omega arith, inl (omega arith))), tt)),
  (tt, tt),
  tt,
)

generate_pin_blocks-made_example :
    (mss : List (List Member)) × (generate_pin_blocks (some atmega32) (led ∷ []) ≡ some mss)
generate_pin_blocks-made_example =
    generate_pin_blocks-made (codes "ATmega32") atmega32 (some atmega32) board named refl
      board-PortmapOk (omega arith, tt)
