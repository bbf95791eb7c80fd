-- ===== src/Shumway/IspDriver.antt =====
-- tools/bootloader/legacy/shumway/lib/mcu/isp/isp_drv_can128.h: the choice of the driver by the memory
-- area. The length of a buffer is a `uint8_t`, so the drivers are given the low 8 bits of it.
mod Tests
pub mod Verifying
use avr_ha_lib.Prelude.{ℕ, ◌%◌, ◌^◌, Bool, List}
use avr_ha_lib.Shumway.Isp.{MemoryArea, flash, eeprom}
use avr_ha_lib.Shumway.FlashDriver
use avr_ha_lib.Shumway.EepromDriver

-- Both drivers.
pub record Drivers (M : Type 0) : Type 0 where
  pub flash_driver : FlashDriver.Driver M
  pub eeprom_driver : EepromDriver.Driver

module _ {M : Type 0} (p : FlashDriver.Part M) where
  abbrev pub full_erase_async : ℕ → MemoryArea → Bool → Drivers M → Bool × Drivers M
  full_erase_async fuses flash cb s =
      let (refused, d) = FlashDriver.full_erase_async p fuses cb s.flash_driver in
      (refused, record s { flash_driver = d })
  full_erase_async fuses eeprom cb s =
      let (refused, d) = EepromDriver.full_erase_async cb s.eeprom_driver in
      (refused, record s { eeprom_driver = d })

  -- `(const uint16_t&)addr` are the two low bytes.
  abbrev pub write_buffer_async : MemoryArea → ℕ → ℕ → ℕ → Bool → Drivers M → Bool × Drivers M
  write_buffer_async flash addr buffer buffer_len cb s =
      let (refused, d) =
        FlashDriver.write_buffer_async p addr buffer (buffer_len % 2 ^ 8) cb s.flash_driver in
      (refused, record s { flash_driver = d })
  write_buffer_async eeprom addr buffer buffer_len cb s =
      let (refused, d) =
        EepromDriver.write_buffer_async (addr % 2 ^ 16) buffer (buffer_len % 2 ^ 8) cb
          s.eeprom_driver in
      (refused, record s { eeprom_driver = d })

  abbrev pub read_buffer : MemoryArea → ℕ → ℕ → Drivers M → List ℕ
  read_buffer flash addr buffer_len s =
      FlashDriver.read_buffer p addr (buffer_len % 2 ^ 8) s.flash_driver.part
  read_buffer eeprom addr buffer_len s =
      EepromDriver.read_buffer (addr % 2 ^ 16) (buffer_len % 2 ^ 8) s.eeprom_driver.memory
