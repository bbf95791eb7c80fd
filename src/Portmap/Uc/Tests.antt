-- ===== src/Portmap/Uc/Tests.antt =====
-- The registers of a port.
use avr_ha_lib.Prelude.{◌≡◌, refl, some}
use avr_ha_lib.Portmap.Text.{codes}
use avr_ha_lib.Portmap.Uc.{get_target_controller, atmega128}
use avr_ha_lib.Portmap.Uc.Ports.{Registers, get_target_controller-Registers}

named : get_target_controller (codes "atmega128") ≡ some atmega128
unfolding get_target_controller
named = refl

port_f-Registers : Registers b'f' atmega128
port_f-Registers = get_target_controller-Registers (codes "atmega128") atmega128 b'f' named refl
