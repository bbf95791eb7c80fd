-- ===== src/Eeprom.antt =====
-- include/avr-halib/drivers/avr/eeprom.h: the driver of the EEPROM. The memory behind the registers is
-- a function of the 16-bit address, so this is the hardware only for addresses of its cells, of which
-- the parts for the default configuration have 4096; waiting for a write to end is no step, and
-- neither is the interrupt lock.
pub mod Storing
mod Tests
use avr_ha_lib.Prelude.{
  ℕ, zero, suc, ◌+◌, ◌%◌, ◌^◌, Bool, true, false, ◌||◌, List, [], ◌∷◌, ◌==◌, ltb, if◌then◌else◌,
}

-- `DefaultConfig`
pub record Config : Type 0 where
  pub address_start : ℕ
  pub address_end : ℕ

abbrev pub default_config : Config
default_config = record { address_start = 0; address_end = 0xfff }

-- The member `address`, and the memory.
pub record Eeprom : Type 0 where
  pub address : ℕ
  pub memory : ℕ → ℕ

unfoldable pub set_address : Config → ℕ → Eeprom → Bool × Eeprom
set_address c a s =
    if ltb a c.address_start || ltb c.address_end a
    then (false, s)
    else (true, record s { address = a })

-- `address++`
abbrev pub next : ℕ → ℕ
next a = (a + 1) % 2 ^ 16

-- What is read; the result of `read` is always `true`.
unfoldable pub read : Eeprom → ℕ × Eeprom
read s = (s.memory s.address, record s { address = next s.address })

-- A byte of the memory is set.
abbrev pub set_byte : ℕ → ℕ → (ℕ → ℕ) → ℕ → ℕ
set_byte a d m x = if x == a then d else m x

unfoldable pub write : ℕ → Eeprom → Eeprom
write d s = record s { address = next s.address; memory = set_byte s.address d s.memory }
