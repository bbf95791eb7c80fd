-- ===== src/Portmap/Description.antt =====
-- tools/portmapgen/include/portmapgen.h: what the parser hands to the generator. Pointers between the
-- parts are the parts themselves, which do not change once they are in a list.
use avr_ha_lib.Prelude.{ℕ, ◌+◌, ◌-◌, Option, List}
use avr_ha_lib.Portmap.Text.{Text}
use avr_ha_lib.Portmap.Uc.{Controller}

pub record PinBlock : Type 0 where
  pub identifier : Text
  pub line : ℕ
  pub port : ℕ
  pub first_pin : ℕ
  pub last_pin : ℕ

-- `getPinCount`; 0 stands for every count that is not positive.
abbrev pub pin_count : PinBlock → ℕ
pin_count p = p.last_pin + 1 - p.first_pin

pub record VirtualPort : Type 0 where
  pub identifier : Text
  pub line : ℕ
  pub pin_blocks : List PinBlock

pub record Property : Type 0 where
  pub identifier : Text
  pub line : ℕ
  pub value : Text

pub record Portmap : Type 0 where
  pub sequence_number : ℕ
  pub identifier : Text
  pub line : ℕ
  pub target_controller : Option Controller
  pub properties : List Property
  pub pin_blocks : List PinBlock
  pub vports : List VirtualPort

pub record CopySection : Type 0 where
  pub sequence_number : ℕ
  pub content : Text
