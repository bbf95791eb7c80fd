-- ===== src/Shumway/UartDriver.antt =====
-- tools/bootloader/legacy/shumway/lib/comm/uart/uart_drv_can128.h: the driver of the serial ports. The
-- registers of a port are numbers, and their bits are set by arithmetic; waiting until a port is ready
-- is no step. What is transmitted is kept as the list of bytes, and a string is the memory behind its
-- pointer.
mod Settings
use avr_ha_lib.Prelude.{
  ℕ, zero, suc, ◌+◌, ◌-◌, ◌*◌, ◌/◌, ◌%◌, ◌^◌, Bool, true, false, Option, none, some, List, [], ◌∷◌,
  ◌++◌, ◌==◌, if◌then◌else◌,
}

pub record Uart : Type 0 where
  pub ucsra : ℕ
  pub ucsrb : ℕ
  pub ucsrc : ℕ
  pub ubrrh : ℕ
  pub ubrrl : ℕ
  pub sent : List ℕ

pub data Port : Type 0 where
  uart0 : Port
  uart1 : Port

pub record Ports : Type 0 where
  pub first : Uart
  pub second : Uart

abbrev pub at : Port → Ports → Uart
at uart0 s = s.first
at uart1 s = s.second

abbrev pub with_port : Port → (Uart → Uart) → Ports → Ports
with_port uart0 f s = record s { first = f s.first }
with_port uart1 f s = record s { second = f s.second }

-- FOSC, in kHz.
abbrev pub fosc : ℕ
fosc = 16000

-- GET_BAUD_RATE, for a rate at which nothing falls below 0.
unfoldable pub get_baud_rate : ℕ → ℕ → ℕ
get_baud_rate fosc baud_rate = (fosc * 1000 * 2 / (baud_rate * 8) + 1) / 2 - 1

-- RXTX
abbrev pub rxtx : ℕ
rxtx = 0x18

abbrev pub transmit : Port → ℕ → Ports → Ports
transmit p c = with_port p (λ u. record u { sent = u.sent ++ c ∷ [] })

-- `none` when the memory behind the pointer ends before a zero.
unfoldable pub transmit_string : Port → List ℕ → Ports → Option Ports
transmit_string p [] s = none
transmit_string p (c ∷ cs) s =
    let rest = transmit_string p cs (transmit p c s) in if c == 0 then some s else rest

abbrev pub clear_port : Port → Ports → Ports
clear_port p =
    with_port p (λ u. record u { ucsrb = 0; ucsra = 0x40; ucsrc = 0x06; ubrrh = 0; ubrrl = 0 })

-- The cast to a byte comes before the shift.
unfoldable pub set_baudrate : Port → ℕ → Ports → Ports
set_baudrate p br = with_port p (λ u. record u {
  ubrrh = br % 256 / 2 ^ 8;
  ubrrl = br % 256;
  ucsra = if (u.ucsra / 2 % 2) == 1 then u.ucsra else u.ucsra + 2;
})

-- The modes are masks of the bits 3 and 4.
unfoldable pub enable : Port → ℕ → Ports → Ports
enable p mode = with_port p (λ u.
    let with_tx =
      if (mode / 2 ^ 3 % 2) == 1
      then (if (u.ucsrb / 2 ^ 3 % 2) == 1 then u.ucsrb else u.ucsrb + 2 ^ 3)
      else u.ucsrb in
    record u {
      ucsrb =
          if (mode / 2 ^ 4 % 2) == 1
          then (if (with_tx / 2 ^ 4 % 2) == 1 then with_tx else with_tx + 2 ^ 4)
          else with_tx;
    })

abbrev pub init : Port → Ports → Ports
init p s = enable p rxtx (set_baudrate p (get_baud_rate fosc 19200) (clear_port p s))
