-- ===== src/Shumway/FlashDriver/Chip.antt =====
-- A part that does what the documents say, for tests.
use avr_ha_lib.Prelude.{
  ℕ, ◌+◌, ◌/◌, ◌%◌, refl, Bool, true, false, none, ◌==◌, ltb, if◌then◌else◌, arith,
}
use avr_ha_lib.Shumway.FlashDriver.{Part, Driver}
use avr_ha_lib.Shumway.FlashDriver.Documentation.{Documented}

pub record Chip : Type 0 where
  pub cells : ℕ → ℕ
  pub page_buffer : ℕ → ℕ
  pub blocked : Bool

abbrev same_page : ℕ → ℕ → Bool
same_page x a = (x / 256) == (a / 256)

-- A blocked chip reads zeros.
abbrev pub chip : Part Chip
chip = record {
  read_byte = λ x m. if m.blocked then 0 else m.cells x % 256;
  page_fill = λ a w m. record m {
    page_buffer = λ i.
        if i == a % 256
        then w % 256
        else if i == a % 256 + 1
        then w / 256 % 256
        else m.page_buffer i;
  };
  page_erase =
      λ a m. record m { cells = λ x. if same_page x a then 255 else m.cells x; blocked = true };
  page_write = λ a m. record m {
    cells = λ x. if same_page x a then m.page_buffer (x % 256) else m.cells x;
    page_buffer = λ i. 255;
    blocked = true;
  };
  rww_enable = λ m. record m { page_buffer = λ i. 255; blocked = false };
}

pub chip-Documented :
    Documented chip (λ x m. m.cells x % 256) (λ i m. m.page_buffer i % 256) (λ m. m.blocked)
chip-Documented = record {
  read_byte_content = λ x m h. ground arith;
  read_byte_bound = λ x m. ground arith;
  fill_content = λ a w x m. refl;
  fill_blocked = λ a w m. refl;
  fill_low = λ a w m h e e'. ground arith;
  fill_high = λ a w m h e e'. ground arith;
  fill_other = λ a w i m h n n'. ground arith;
  erase_page = λ a x m h. ground arith;
  erase_other = λ a x m h. ground arith;
  erase_buffered = λ a i m. refl;
  write_page = λ a x m h k. ground arith;
  write_other = λ a x m h. ground arith;
  write_buffered = λ a i m h. refl;
  enable_content = λ x m. refl;
  enable_blocked = λ m. refl;
  enable_buffered = λ i m h. refl;
}

abbrev pub fresh : Chip
fresh = record {
  cells = λ x. if ltb x 256 then 7 else 255;
  page_buffer = λ i. 255;
  blocked = false;
}

abbrev pub idle : Driver Chip
idle = record {
  cb = false;
  irq_handler = none;
  tmp_buffer_fill = 0;
  tmp_addr = 0;
  dest_addr = 0;
  buffer = 0;
  num = 0;
  spmie = false;
  calls = 0;
  part = fresh;
}

abbrev pub ram : ℕ → ℕ
ram i = i % 256
