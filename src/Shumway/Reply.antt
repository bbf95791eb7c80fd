-- ===== src/Shumway/Reply.antt =====
-- tools/bootloader/legacy/shumway/config/protocol.h: `REPLY`, by its numbers.
use avr_ha_lib.Prelude.{ℕ}

abbrev pub error : ℕ
error = 0

abbrev pub ok : ℕ
ok = 1
