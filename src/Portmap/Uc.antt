-- ===== src/Portmap/Uc.antt =====
-- tools/portmapgen/{include/uc.h,src/uc.cpp}: the controllers that the port map generator knows. Text is
-- a list of character codes. An error message is not modelled, only that there is an error.
pub mod Ports
mod Tests
use avr_ha_lib.Prelude.{
  ℕ, ◌+◌, ◌-◌, Bool, true, false, not, ◌&&◌, ◌||◌, Option, none, some, List, [], ◌∷◌, map, ◌==◌,
  ltb, leb, if◌then◌else◌,
}
use avr_ha_lib.Portmap.Text.{Text, codes, text_eq, to_lower}

-- `PinType`, without NONE, which only ends a table.
pub data PinType : Type 0 where
  pin : PinType
  port : PinType
  ddr : PinType

abbrev pub same_type : PinType → PinType → Bool
same_type pin pin = true
same_type pin port = false
same_type pin ddr = false
same_type port pin = false
same_type port port = true
same_type port ddr = false
same_type ddr pin = false
same_type ddr port = false
same_type ddr ddr = true

-- `Port2Mem`
pub record PortToMem : Type 0 where
  pub port_char : ℕ
  pub pin_type : PinType
  pub address : ℕ

-- `AvrUC`; the range of ports is for messages only.
pub record Controller : Type 0 where
  pub name : Text
  pub ports : List PortToMem

abbrev row : ℕ → PinType → ℕ → PortToMem
row c t a = record { port_char = c; pin_type = t; address = a }

abbrev p2m_atmega32 : List PortToMem
p2m_atmega32 =
    row b'd' pin 0x30
    ∷ row b'd' ddr 0x31
    ∷ row b'd' port 0x32
    ∷ row b'c' pin 0x33
    ∷ row b'c' ddr 0x34
    ∷ row b'c' port 0x35
    ∷ row b'b' pin 0x36
    ∷ row b'b' ddr 0x37
    ∷ row b'b' port 0x38
    ∷ row b'a' pin 0x39
    ∷ row b'a' ddr 0x3a
    ∷ row b'a' port 0x3b
    ∷ []

abbrev p2m_atmega128 : List PortToMem
p2m_atmega128 =
    row b'g' pin 0x63
    ∷ row b'g' ddr 0x64
    ∷ row b'g' port 0x65
    ∷ row b'f' pin 0x20
    ∷ row b'f' ddr 0x61
    ∷ row b'f' port 0x62
    ∷ row b'e' pin 0x21
    ∷ row b'e' ddr 0x22
    ∷ row b'e' port 0x23
    ∷ row b'd' pin 0x30
    ∷ row b'd' ddr 0x31
    ∷ row b'd' port 0x32
    ∷ row b'c' pin 0x33
    ∷ row b'c' ddr 0x34
    ∷ row b'c' port 0x35
    ∷ row b'b' pin 0x36
    ∷ row b'b' ddr 0x37
    ∷ row b'b' port 0x38
    ∷ row b'a' pin 0x39
    ∷ row b'a' ddr 0x3a
    ∷ row b'a' port 0x3b
    ∷ []

abbrev p2m_atmega1281 : List PortToMem
p2m_atmega1281 =
    row b'a' pin 0x20
    ∷ row b'a' ddr 0x21
    ∷ row b'a' port 0x22
    ∷ row b'b' pin 0x23
    ∷ row b'b' ddr 0x24
    ∷ row b'b' port 0x25
    ∷ row b'c' pin 0x26
    ∷ row b'c' ddr 0x27
    ∷ row b'c' port 0x28
    ∷ row b'd' pin 0x29
    ∷ row b'd' ddr 0x2a
    ∷ row b'd' port 0x2b
    ∷ row b'e' pin 0x2c
    ∷ row b'e' ddr 0x2d
    ∷ row b'e' port 0x2e
    ∷ row b'f' pin 0x2f
    ∷ row b'f' ddr 0x30
    ∷ row b'f' port 0x31
    ∷ row b'g' pin 0x32
    ∷ row b'g' ddr 0x33
    ∷ row b'g' port 0x34
    ∷ []

abbrev p2m_at90can128 : List PortToMem
p2m_at90can128 =
    row b'a' pin 0x20
    ∷ row b'a' ddr 0x21
    ∷ row b'a' port 0x22
    ∷ row b'b' pin 0x23
    ∷ row b'b' ddr 0x24
    ∷ row b'b' port 0x25
    ∷ row b'c' pin 0x26
    ∷ row b'c' ddr 0x27
    ∷ row b'c' port 0x28
    ∷ row b'd' pin 0x29
    ∷ row b'd' ddr 0x2a
    ∷ row b'd' port 0x2b
    ∷ row b'e' pin 0x2c
    ∷ row b'e' ddr 0x2d
    ∷ row b'e' port 0x2e
    ∷ row b'f' pin 0x2f
    ∷ row b'f' ddr 0x30
    ∷ row b'f' port 0x31
    ∷ row b'g' pin 0x32
    ∷ row b'g' ddr 0x33
    ∷ row b'g' port 0x34
    ∷ []

abbrev pub atmega32 : Controller
atmega32 = record { name = codes "atmega32"; ports = p2m_atmega32 }

abbrev pub atmega128 : Controller
atmega128 = record { name = codes "atmega128"; ports = p2m_atmega128 }

abbrev pub atmega1281 : Controller
atmega1281 = record { name = codes "atmega1281"; ports = p2m_atmega1281 }

abbrev pub atmega128rfa1 : Controller
atmega128rfa1 = record { name = codes "atmega128rfa1"; ports = p2m_atmega1281 }

abbrev pub at90can128 : Controller
at90can128 = record { name = codes "at90can128"; ports = p2m_at90can128 }

unfoldable pub get_target_controller : Text → Option Controller
get_target_controller s =
    let name = map to_lower s in
    if text_eq name at90can128.name
    then some at90can128
    else if text_eq name atmega32.name
    then some atmega32
    else if text_eq name atmega128.name
    then some atmega128
    else if text_eq name atmega1281.name
    then some atmega1281
    else if text_eq name atmega128rfa1.name
    then some atmega128rfa1
    else none

abbrev pub has_port : ℕ → List PortToMem → Bool
has_port c [] = false
has_port c (r ∷ rs) = (c == r.port_char) || has_port c rs

-- `checkPort`: `true` for an error.
unfoldable pub check_port : ℕ → Option Controller → Bool
check_port c none = false
check_port c (some k) = not (has_port c k.ports)

-- `checkPin`, of a number that is not negative.
unfoldable pub check_pin : ℕ → Bool
check_pin n = ltb 7 n

abbrev pub find_address : ℕ → PinType → List PortToMem → Option ℕ
find_address c t [] = none
find_address c t (r ∷ rs) =
    if (c == r.port_char) && same_type t r.pin_type then some r.address else find_address c t rs

-- `none` is -1.
unfoldable pub get_address : ℕ → PinType → Option Controller → Option ℕ
get_address c t none = none
get_address c t (some k) = find_address c t k.ports
