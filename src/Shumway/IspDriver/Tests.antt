-- ===== src/Shumway/IspDriver/Tests.antt =====
-- Buffers that are written and read back.
use avr_ha_lib.Prelude.{true, ◌+◌, ◌*◌, ◌/◌, ◌%◌, ◌≡◌, refl, false, some, arith}
use avr_ha_lib.Shumway.Isp.{flash, eeprom}
use avr_ha_lib.Shumway.FlashDriver
use avr_ha_lib.Shumway.FlashDriver.{page_size}
use avr_ha_lib.Shumway.FlashDriver.Chip.{Chip, chip, chip-Documented, idle, ram}
use avr_ha_lib.Shumway.EepromDriver
use avr_ha_lib.Shumway.IspDriver.{Drivers, write_buffer_async, read_buffer}
use avr_ha_lib.Shumway.IspDriver.Verifying.{bytes, read_buffer-eeprom, read_buffer-flash}

abbrev eeprom_idle : EepromDriver.Driver
eeprom_idle = record {
  cb = false;
  addr = 0;
  dest_addr = 0;
  buffer = 0;
  erase = false;
  eerie = false;
  calls = 0;
  memory = λ x. x % 3;
}

abbrev both : Drivers Chip
both = record { flash_driver = idle; eeprom_driver = eeprom_idle }

read_buffer-eeprom_example :
    let (refused, s') = write_buffer_async chip eeprom 0x10010 40 5 true both in
    (refused ≡ false)
    × ((t : EepromDriver.Driver) × (EepromDriver.run ram 6 6 s'.eeprom_driver ≡ some t)
        × (t.cb ≡ false)
        × (read_buffer chip eeprom 0x10010 5 (record s' { eeprom_driver = t }) ≡ bytes 40 5 ram)
        × (s'.flash_driver ≡ idle))
read_buffer-eeprom_example =
    read_buffer-eeprom chip ram 6 0x10010 40 5 both (omega arith) refl (omega arith) (omega arith)
      (omega arith)

read_buffer-flash_example :
    let (refused, s') = write_buffer_async chip flash 100 40 200 true both in
    (refused ≡ false)
    × ((t : FlashDriver.Driver Chip) × (FlashDriver.run chip ram
            (130 * ((100 % page_size + 200 + 255) / page_size) + 2)
            s'.flash_driver
          ≡ some t)
        × (t.cb ≡ false)
        × (read_buffer chip flash 100 200 (record s' { flash_driver = t }) ≡ bytes 40 200 ram)
        × (s'.eeprom_driver ≡ eeprom_idle))
read_buffer-flash_example =
    read_buffer-flash chip ram chip-Documented 100 40 200 both (omega arith) (λ i. omega arith) refl
      (omega arith) refl (λ i h. refl) (λ x h k. ground arith)
