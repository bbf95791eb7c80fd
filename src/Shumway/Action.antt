-- ===== src/Shumway/Action.antt =====
-- tools/bootloader/legacy/shumway/config/protocol.h: `ACTION`, by its numbers.
use avr_ha_lib.Prelude.{ℕ}

abbrev pub invalid : ℕ
invalid = 0

abbrev pub select_open : ℕ
select_open = 1

abbrev pub select_close : ℕ
select_close = 2

abbrev pub mem_select : ℕ
mem_select = 3

abbrev pub addr : ℕ
addr = 4

abbrev pub write : ℕ
write = 5

abbrev pub read : ℕ
read = 6

abbrev pub full_erase : ℕ
full_erase = 7
