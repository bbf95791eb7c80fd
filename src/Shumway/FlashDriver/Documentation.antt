-- ===== src/Shumway/FlashDriver/Documentation.antt =====
-- What the documents of the part and of avr/boot.h say of the operations that the driver calls.
use avr_ha_lib.Prelude.{ℕ, ◌+◌, ◌/◌, ◌%◌, ◌<◌, ◌≡◌, ◌≢◌, Bool, false}
use avr_ha_lib.Shumway.FlashDriver.{Part, page_size, blank_byte}

-- Two addresses in one page.
abbrev pub SamePage : ℕ → ℕ → Type 0
SamePage x a = x / page_size ≡ a / page_size

-- The memory's bytes, the bytes of the temporary page buffer, and whether the memory is blocked for
-- reading. Erasing and writing a page block it, and nothing is said of what a blocked memory reads.
-- A word of the page buffer can be filled once; a page is written as the buffer if it is blank.
pub record Documented {M : Type 0} (p : Part M) (content buffered : ℕ → M → ℕ) (blocked : M → Bool)
    : Type 0 where
  pub read_byte_content : (x : ℕ) (m : M) → blocked m ≡ false → p.read_byte x m ≡ content x m
  pub read_byte_bound : (x : ℕ) (m : M) → p.read_byte x m < 256
  pub fill_content : (a w x : ℕ) (m : M) → content x (p.page_fill a w m) ≡ content x m
  pub fill_blocked : (a w : ℕ) (m : M) → blocked (p.page_fill a w m) ≡ blocked m
  pub fill_low :
      (a w : ℕ) (m : M)
      → a % 2 ≡ 0
      → buffered (a % page_size) m ≡ blank_byte
      → buffered (a % page_size + 1) m ≡ blank_byte
      → buffered (a % page_size) (p.page_fill a w m) ≡ w % 256
  pub fill_high :
      (a w : ℕ) (m : M)
      → a % 2 ≡ 0
      → buffered (a % page_size) m ≡ blank_byte
      → buffered (a % page_size + 1) m ≡ blank_byte
      → buffered (a % page_size + 1) (p.page_fill a w m) ≡ w / 256 % 256
  pub fill_other :
      (a w i : ℕ) (m : M)
      → a % 2 ≡ 0
      → i ≢ a % page_size
      → i ≢ a % page_size + 1
      → buffered i (p.page_fill a w m) ≡ buffered i m
  pub erase_page : (a x : ℕ) (m : M) → SamePage x a → content x (p.page_erase a m) ≡ blank_byte
  pub erase_other : (a x : ℕ) (m : M) → ¬ SamePage x a → content x (p.page_erase a m) ≡ content x m
  pub erase_buffered : (a i : ℕ) (m : M) → buffered i (p.page_erase a m) ≡ buffered i m
  pub write_page :
      (a x : ℕ) (m : M)
      → ((y : ℕ) → SamePage y a → content y m ≡ blank_byte)
      → SamePage x a
      → content x (p.page_write a m) ≡ buffered (x % page_size) m
  pub write_other : (a x : ℕ) (m : M) → ¬ SamePage x a → content x (p.page_write a m) ≡ content x m
  pub write_buffered :
      (a i : ℕ) (m : M) → i < page_size → buffered i (p.page_write a m) ≡ blank_byte
  pub enable_content : (x : ℕ) (m : M) → content x (p.rww_enable m) ≡ content x m
  pub enable_blocked : (m : M) → blocked (p.rww_enable m) ≡ false
  pub enable_buffered : (i : ℕ) (m : M) → i < page_size → buffered i (p.rww_enable m) ≡ blank_byte
