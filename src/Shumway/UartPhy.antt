-- ===== src/Shumway/UartPhy.antt =====
-- tools/bootloader/legacy/shumway/s_uart_phy/S_Uart_Phy.cpp: the server that writes debug messages to the
-- serial port. What it transmits is kept as the pointer that it hands to `transmit`.
use avr_ha_lib.Prelude.{Option, none, some, ◌==◌, if◌then◌else◌}
use avr_ha_lib.Shumway.Memory.{Pointer, attach}
use avr_ha_lib.Shumway.Kernel.{Message, raise_visits}
use avr_ha_lib.Shumway.Signal
use avr_ha_lib.Shumway.Server.{World, mediate, release}

-- The pointer, which may be NULL, that `transmit` is called with, if it is called.
unfoldable pub receive : Message → World → Option (Option Pointer) × World
receive m w =
    if m.sig_id == Signal.debug
    then (some (attach m.msg_id w.memory), release m.msg_id w)
    else (none, mediate (raise_visits m) w)
