-- ===== src/Shumway/Signal.antt =====
-- tools/bootloader/legacy/shumway/config/config.h: `SIGNAL`, by its numbers.
use avr_ha_lib.Prelude.{ℕ}

abbrev pub invalid : ℕ
invalid = 0

abbrev pub debug : ℕ
debug = 1

abbrev pub phy_in : ℕ
phy_in = 2

abbrev pub id_filter_enabled : ℕ
id_filter_enabled = 3

abbrev pub appl_start : ℕ
appl_start = 4

abbrev pub comm_close : ℕ
comm_close = 5

abbrev pub id_out : ℕ
id_out = 6

abbrev pub enable_id_filter : ℕ
enable_id_filter = 7

abbrev pub id_in : ℕ
id_in = 8

abbrev pub comm_closed : ℕ
comm_closed = 9

abbrev pub isp_out : ℕ
isp_out = 10

abbrev pub timer_out : ℕ
timer_out = 11

abbrev pub disable_appl_start : ℕ
disable_appl_start = 12
