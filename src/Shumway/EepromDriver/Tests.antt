-- ===== src/Shumway/EepromDriver/Tests.antt =====
-- Requests to the EEPROM driver.
use avr_ha_lib.Prelude.{true, ℕ, suc, ◌+◌, ◌%◌, ◌≡◌, refl, false, some, leb, if◌then◌else◌, arith}
use mathlib.Core.Option
use avr_ha_lib.Shumway.EepromDriver.{
  Driver, blank_byte, e2_end, write_buffer_async, full_erase_async, run, isr, skip, write_next,
}
use avr_ha_lib.Shumway.EepromDriver.Writing.{full_erase_async-blank}

abbrev idle : Driver
idle = record {
  cb = false;
  addr = 0;
  dest_addr = 0;
  buffer = 0;
  erase = false;
  eerie = false;
  calls = 0;
  memory = λ x. x % 3;
}

abbrev ram : ℕ → ℕ
ram i = i % 2

erased :
    let (refused, s') = full_erase_async true idle in
    (refused ≡ false)
    × ((t : Driver) × (run ram 5000 (suc (e2_end + 1)) s' ≡ some t)
        × (t.cb ≡ false)
        × (t.eerie ≡ false)
        × (t.calls ≡ 0 + 1)
        × ((x : ℕ) → t.memory x ≡ (if leb x e2_end then blank_byte else x % 3)))
erased = full_erase_async-blank ram 5000 idle refl (omega arith)

-- The bytes that the memory has already need no interrupt: 10 has the byte, 11 has not.
passed :
    Option.map {B = ℕ × ℕ}
      (λ (t : Driver). (t.addr, t.memory 11))
      (run ram 6 1 (write_buffer_async 9 4 5 true idle).1)
    ≡ some (12, 0)
unfolding run isr skip write_next
passed = refl

-- No bytes at the address 0 are all bytes that the address can count: the end is behind the last one.
nothing_at_zero : (write_buffer_async 0 4 0 true idle).1.dest_addr ≡ 0xffff
nothing_at_zero = refl
