-- ===== src/Shumway/EepromDriver.antt =====
-- tools/bootloader/legacy/shumway/lib/mcu/eeprom/eeprom_drv_can128.{h,cpp}: the driver that writes the
-- EEPROM by interrupts. The memory behind the registers is a function, and so is the RAM that
-- `_buffer` points into, which nothing changes while the driver works. Waiting for the flash memory is
-- no step.
pub mod Progress
pub mod Writing
mod Tests
use avr_ha_lib.Prelude.{
  ℕ, zero, suc, ◌+◌, ◌-◌, ◌%◌, ◌^◌, Bool, true, false, not, Option, none, some, List, [], ◌∷◌, ◌==◌,
  leb, if◌then◌else◌,
}

abbrev pub blank_byte : ℕ
blank_byte = 0xff

-- E2END of the AT90CAN128.
abbrev pub e2_end : ℕ
e2_end = 0xfff

-- The variables of the namespace `eeprom`; whether a callback is registered; the bit EERIE of EECR; how
-- often callbacks were called; the memory.
pub record Driver : Type 0 where
  pub cb : Bool
  pub addr : ℕ
  pub dest_addr : ℕ
  pub buffer : ℕ
  pub erase : Bool
  pub eerie : Bool
  pub calls : ℕ
  pub memory : ℕ → ℕ

-- The bytes that the buffer is filled with; the result is always `false`.
unfoldable pub read_buffer : ℕ → ℕ → (ℕ → ℕ) → List ℕ
read_buffer addr zero memory = []
read_buffer addr (suc n) memory = memory (addr % 2 ^ 16) ∷ read_buffer (addr + 1) n memory

-- The callback is given as whether it is not NULL.
abbrev pub init_async : Bool → Driver → Bool × Driver
init_async cb s = (false, record s { cb = cb; eerie = true })

abbrev pub full_erase_async : Bool → Driver → Bool × Driver
full_erase_async cb s =
    if not s.cb
    then init_async cb (record s { erase = true; addr = 0; dest_addr = e2_end })
    else (true, s)

abbrev pub write_buffer_async : ℕ → ℕ → ℕ → Bool → Driver → Bool × Driver
write_buffer_async addr buffer buffer_len cb s =
    if not s.cb
    then init_async cb (record s {
      erase = false;
      addr = addr;
      dest_addr = (addr + buffer_len + 2 ^ 16 - 1) % 2 ^ 16;
      buffer = buffer;
    })
    else (true, s)

module _ (ram : ℕ → ℕ) where
  -- The byte for the address, and the pointer behind it.
  abbrev pub byte : Driver → ℕ
  byte s = if s.erase then blank_byte else ram s.buffer

  abbrev pub take_byte : Driver → Driver
  take_byte s = record s { buffer = if s.erase then s.buffer else s.buffer + 1 }

  -- The loop of the interrupt, which passes over bytes that the memory has; `none` means that the fuel
  -- ran out.
  unfoldable pub skip : ℕ → ℕ → Driver → Option (ℕ × Driver)
  skip zero data_byte s = none
  skip (suc fuel) data_byte s = elim (leb s.addr s.dest_addr) [
    | false ↦ some (data_byte, s)
    | true ↦ elim (s.memory s.addr == byte s) [
      | true ↦ skip fuel (byte s) (record (take_byte s) { addr = (s.addr + 1) % 2 ^ 16 })
      | false ↦ some (byte s, take_byte s)
    ]
  ]

  -- What the interrupt does after the loop.
  unfoldable pub write_next : ℕ → Driver → Driver
  write_next data_byte s =
      if leb s.addr s.dest_addr
      then record s {
        memory = λ x. if x == s.addr then data_byte else s.memory x;
        addr = (s.addr + 1) % 2 ^ 16;
      }
      else if s.cb
      then record s { calls = s.calls + 1; cb = false; eerie = false }
      else record s { eerie = false }

  -- `ISR(EE_READY_vect)`, which the part raises when it is ready, if EERIE is set.
  unfoldable pub isr : ℕ → Driver → Option Driver
  isr fuel s = elim (skip fuel 0 s) [ none ↦ none | some (d, s') ↦ some (write_next d s') ]

  unfoldable pub run : ℕ → ℕ → Driver → Option Driver
  run fuel zero s = some s
  run fuel (suc n) s = elim s.eerie [
    | false ↦ some s
    | true ↦ elim (isr fuel s) [ none ↦ none | some s' ↦ run fuel n s' ]
  ]
