-- ===== src/Shumway/FlashDriver/Tests.antt =====
-- The flash driver on a part that keeps what its documents say, and what else may happen on it.
use avr_ha_lib.Prelude.{
  true, ℕ, ◌+◌, ◌-◌, ◌*◌, ◌/◌, ◌%◌, ◌^◌, ◌≡◌, refl, inl, Bool, false, some, arith,
}
use avr_ha_lib.Shumway.FlashDriver.{
  Driver, page_size, appl_section_size_w, full_erase_async, write_buffer_async, run, step, call,
  irq_page_load, next_byte, advance, page_blank_check, differs,
}
use avr_ha_lib.Shumway.FlashDriver.Chip.{Chip, chip, chip-Documented, fresh, idle, ram}
use mathlib.Core.Option
use avr_ha_lib.Shumway.FlashDriver.Programming.{write_buffer_async-patched}
use avr_ha_lib.Shumway.Image.{patched}
use avr_ha_lib.Shumway.FlashDriver.Erasing.{erased_below, full_erase_async-erased}

-- 300 bytes from 100 on, over the first page and into the second.
write_buffer_async-patched_example :
    let (refused, s') = write_buffer_async chip 100 40 300 true idle in
    (refused ≡ false)
    × ((t : Driver Chip) × (run chip ram (130 * ((100 % page_size + 300 + 255) / page_size) + 2) s'
          ≡ some t)
        × (t.cb ≡ false)
        × (t.spmie ≡ false)
        × (t.calls ≡ 0 + 1)
        × (t.part.blocked ≡ false)
        × (t.part.cells 350 % 256
            ≡ patched 100 300 (λ i. ram (40 + i)) (λ y. fresh.cells y % 256) 350))
write_buffer_async-patched_example =
    write_buffer_async-patched chip-Documented ram 100 300 40 (λ y. fresh.cells y % 256) 0
      (λ i. omega arith) (λ x h k. ground arith) idle 350 refl refl (omega arith) refl (λ i h. refl)
      (λ y. refl) (inl (inl (omega arith)))

full_erase_async-erased_example :
    let (refused, s') = full_erase_async chip 6 true idle in
    let words = 2 ^ 16 - appl_section_size_w 6 in
    (refused ≡ false)
    × ((t : Driver Chip) × (run chip ram (words / 128 + 2) s' ≡ some t)
        × (t.cb ≡ false)
        × (t.spmie ≡ false)
        × (t.calls ≡ 0 + 1)
        × (t.part.blocked ≡ false)
        × ((x : ℕ) → t.part.cells x % 256 ≡ erased_below (2 * words) (λ y. fresh.cells y % 256) x))
full_erase_async-erased_example = full_erase_async-erased chip-Documented ram 6 idle refl

-- With the fuse bits programmed the boot section is as large as it can be.
programmed : appl_section_size_w 0 ≡ 4096
unfolding appl_section_size_w
programmed = refl

unprogrammed : appl_section_size_w 6 ≡ 512
unfolding appl_section_size_w
unprogrammed = refl

-- Behind the end of a buffer that reaches into a second page the driver writes what it read from a
-- blocked memory.
lost :
    Option.map {B = Bool × ℕ × ℕ × ℕ}
      (λ (t : Driver Chip). (t.cb, t.part.cells 259, t.part.cells 260, t.part.cells 511))
      (run chip ram 262 (write_buffer_async chip 0 0 260 true idle).1)
    ≡ some (false, 3, 0, 0)
unfolding run step call irq_page_load next_byte advance page_blank_check differs
lost = refl
