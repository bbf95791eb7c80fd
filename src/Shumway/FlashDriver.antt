-- ===== src/Shumway/FlashDriver.antt =====
-- tools/bootloader/legacy/shumway/lib/mcu/flash/flash_drv_can128.{h,cpp} and `GET_APPL_SECTION_SIZE_W` of
-- lib/mcu/mcu_drv_can128.h: the driver that erases and programs the flash memory by interrupts. The part
-- with its program memory is a parameter, and so is the RAM that `_buffer` points into, which nothing
-- changes while the driver works. Waiting for the EEPROM to become ready is no step.
pub mod Documentation
pub mod Running
pub mod Loading
pub mod Paging
pub mod Programming
pub mod Erasing
pub mod Chip
mod Tests
use avr_ha_lib.Prelude.{
  ℕ, zero, suc, ◌+◌, ◌-◌, ◌*◌, ◌/◌, ◌%◌, ◌^◌, bit_and, Bool, true, false, not, ◌&&◌, Option, none,
  some, List, [], ◌∷◌, ◌==◌, leb, if◌then◌else◌,
}

-- `pgm_read_byte_far`, and the operations of avr/boot.h.
pub record Part (M : Type 0) : Type 0 where
  pub read_byte : ℕ → M → ℕ
  pub page_fill : ℕ → ℕ → M → M
  pub page_erase : ℕ → M → M
  pub page_write : ℕ → M → M
  pub rww_enable : M → M

pub data Handler : Type 0 where
  page_erase_handler : Handler
  page_load_handler : Handler
  page_write_handler : Handler
  exit_handler : Handler

-- The variables of the namespace `flash`; whether a callback is registered; the bit SPMIE of SPMCSR; how
-- often callbacks were called; the part.
pub record Driver (M : Type 0) : Type 0 where
  pub cb : Bool
  pub irq_handler : Option Handler
  pub tmp_buffer_fill : ℕ
  pub tmp_addr : ℕ
  pub dest_addr : ℕ
  pub buffer : ℕ
  pub num : ℕ
  pub spmie : Bool
  pub calls : ℕ
  pub part : M

abbrev pub page_size : ℕ
page_size = 256

abbrev pub blank_byte : ℕ
blank_byte = 0xff

abbrev pub flash_end : ℕ
flash_end = 0x1ffff

abbrev pub max_boot_size : ℕ
max_boot_size = 4096

-- `addr & ~(SPM_PAGESIZE - 1)`
abbrev pub aligned : ℕ → ℕ
aligned addr = addr - addr % page_size

-- The high fuse byte as `boot_lock_fuse_bits_get` reads it.
unfoldable pub appl_section_size_w : ℕ → ℕ
appl_section_size_w fuses = max_boot_size / 2 ^ (bit_and fuses 6 / 2)

module _ {M : Type 0} (p : Part M) where
  -- The bytes that the buffer is filled with; the result is always `false`.
  unfoldable pub read_buffer : ℕ → ℕ → M → List ℕ
  read_buffer addr zero m = []
  read_buffer addr (suc n) m = p.read_byte (addr % 2 ^ 32) m ∷ read_buffer (addr + 1) n m

  -- The loop of `page_blank_check`, with its rounds to go.
  unfoldable pub differs : ℕ → ℕ → M → Bool
  differs zero addr m = false
  differs (suc i) addr m =
      let rest = differs i ((addr + 1) % 2 ^ 32) m in
      if not (p.read_byte addr m == blank_byte) then true else rest

  unfoldable pub page_blank_check : ℕ → M → Bool
  page_blank_check addr m = differs page_size (aligned addr) m

  -- The callback is given as whether it is not NULL.
  abbrev pub full_erase_async : ℕ → Bool → Driver M → Bool × Driver M
  full_erase_async fuses cb s =
      if not s.cb
      then (
        false,
        record s {
          cb = cb;
          irq_handler = some page_erase_handler;
          dest_addr = 0;
          num = ((flash_end + 1) / 2 - appl_section_size_w fuses) % 2 ^ 16;
          spmie = true;
        },
      )
      else (true, s)

  abbrev pub write_buffer_async : ℕ → ℕ → ℕ → Bool → Driver M → Bool × Driver M
  write_buffer_async addr buffer buffer_len cb s =
      if not s.cb
      then (
        false,
        record s {
          dest_addr = addr;
          buffer = buffer;
          num = buffer_len;
          cb = cb;
          irq_handler = some page_load_handler;
          tmp_addr = aligned addr;
          tmp_buffer_fill = 0;
          spmie = true;
        },
      )
      else (true, s)

  unfoldable pub irq_page_erase : Driver M → Driver M
  irq_page_erase s =
      if not (s.num == 0)
      then record s {
        part = p.page_erase s.dest_addr s.part;
        dest_addr = (s.dest_addr + page_size) % 2 ^ 32;
        num = (s.num + 2 ^ 16 - page_size / 2) % 2 ^ 16;
      }
      else record s { irq_handler = some exit_handler; part = p.rww_enable s.part }

  module _ (ram : ℕ → ℕ) where
    -- One round of the loop that loads a word: its test, its byte, and the variables after it.
    abbrev pub takes : Driver M → Bool
    takes s = not (s.num == 0) && leb s.dest_addr s.tmp_addr

    unfoldable pub next_byte : Driver M → ℕ
    next_byte s = if takes s then ram s.buffer else p.read_byte s.tmp_addr s.part

    unfoldable pub advance : Driver M → Driver M
    advance s = record s {
      buffer = if takes s then s.buffer + 1 else s.buffer;
      num = if takes s then s.num - 1 else s.num;
      tmp_addr = (s.tmp_addr + 1) % 2 ^ 32;
      tmp_buffer_fill = (s.tmp_buffer_fill + 1) % 2 ^ 16;
    }

    -- The last branch of `_irq_page_load_handler`: two rounds, then the word goes to the page buffer.
    abbrev pub load_word : Driver M → Driver M
    load_word s =
        let second = advance s in
        let s' = advance second in
        let word = (next_byte s + next_byte second * 2 ^ 8) % 2 ^ 16 in
        record s' {
          part = p.page_fill ((s'.tmp_addr + 2 ^ 32 - 2) % 2 ^ 32) word s'.part;
          spmie = true;
        }

    -- The page buffer goes to the memory, and the next page follows.
    abbrev pub write_page : Driver M → Driver M
    write_page s = record s {
      irq_handler = some page_load_handler;
      part = p.page_write s.dest_addr s.part;
      tmp_buffer_fill = 0;
      dest_addr = s.tmp_addr;
    }

    unfoldable pub irq_page_load : Driver M → Driver M
    irq_page_load s =
        if s.tmp_buffer_fill == page_size
        then (if page_blank_check s.dest_addr s.part
            then record s {
              part = p.page_erase s.dest_addr s.part;
              irq_handler = some page_write_handler;
            }
            else record s {
              part = p.page_write s.dest_addr s.part;
              tmp_buffer_fill = 0;
              dest_addr = s.tmp_addr;
            })
        else (if s.num == 0 && s.tmp_buffer_fill == 0
            then record s { irq_handler = some exit_handler; part = p.rww_enable s.part }
            else load_word s)

    abbrev pub irq_exit : Driver M → Driver M
    irq_exit s =
        let off = record s { spmie = false } in
        if s.cb then record off { cb = false; calls = s.calls + 1 } else off

    -- `ISR(SPM_READY_vect)`; a call through NULL has no result.
    unfoldable pub call : Handler → Driver M → Driver M
    call page_erase_handler s = irq_page_erase s
    call page_load_handler s = irq_page_load s
    call page_write_handler s = write_page s
    call exit_handler s = irq_exit s

    -- The part raises the interrupt when it is ready, if SPMIE is set.
    unfoldable pub step : Driver M → Option (Driver M)
    step s =
        if s.spmie then (elim s.irq_handler [ none ↦ none | some h ↦ some (call h s) ]) else some s

    unfoldable pub run : ℕ → Driver M → Option (Driver M)
    run zero s = some s
    run (suc n) s = elim (step s) [ none ↦ none | some s' ↦ run n s' ]
