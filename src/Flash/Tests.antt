-- ===== src/Flash/Tests.antt =====
-- The theorems on the flash driver at a memory of two pages of eight bytes.
use avr_ha_lib.Prelude.{
  ℕ, ◌/◌, ◌-◌, ◌%◌, ◌≤◌, ◌≡◌, ◌↔◌, refl, true, some, List, [], ◌∷◌, ◌++◌, arith, flatten,
}
use avr_ha_lib.Flash.{
  Config, default_config, buffer_write, page_write, wait_done, enable_rww, Address, start, address,
  is_valid, linear_address, set_current_address, write_all, write_current_page, read_all,
  set_reader_address, write, preserve_from, write_page, next, next_page, end_of_page,
}
use avr_ha_lib.Flash.Addressing.{IsSane, linear_address-address, is_valid-address}
use avr_ha_lib.Flash.Writing.{fills, flush, kept, program, write_all-program, patch-page}
use avr_ha_lib.Flash.Reading.{read_all-words}

abbrev tiny : Config
tiny = record (default_config 8) { flash_end = 15; preserve_unset = true }

tiny-IsSane : IsSane tiny
tiny-IsSane = record {
  nonempty = omega arith;
  even = refl;
  small = omega arith;
  pages = 2;
  pages_small = omega arith;
  whole = refl;
  some_page = omega arith;
}

-- The driver's own configuration, for a controller with pages of 256 bytes.
default-IsSane : IsSane (default_config 256)
default-IsSane = record {
  nonempty = omega arith;
  even = refl;
  small = omega arith;
  pages = 512;
  pages_small = omega arith;
  whole = refl;
  some_page = omega arith;
}

abbrev page_words : List ℕ
page_words = 11 ∷ 12 ∷ 13 ∷ 14 ∷ []

one_page :
    write_all tiny (λ a. a) 1 page_words (record { page = 1; offset = 0 })
    ≡ some (
      buffer_write 0 11
          ∷ wait_done
          ∷ buffer_write 2 12
          ∷ wait_done
          ∷ buffer_write 4 13
          ∷ wait_done
          ∷ buffer_write 6 14
          ∷ wait_done
          ∷ page_write 0 8
          ∷ wait_done
          ∷ enable_rww
          ∷ [],
      record { page = 2; offset = 0 },
    )
unfolding write_all write write_current_page preserve_from write_page next next_page end_of_page
one_page = refl

linear_again : linear_address tiny (address tiny 13) ≡ 13
linear_again = linear_address-address tiny tiny-IsSane 13 (omega arith)

valid_pages : (is_valid tiny (address tiny 16) ≡ true) ↔ ((16 ≤ 15) × (◌≡◌ {A = ℕ} (16 % 2) 0))
valid_pages = is_valid-address tiny tiny-IsSane 16 (omega arith)

write_all-program_example :
    write_all tiny (λ a. a) 1 (flatten (page_words ∷ page_words ∷ [])) start
    ≡ some (program tiny 0 (page_words ∷ page_words ∷ []), record { page = 2; offset = 0 })
write_all-program_example =
    write_all-program tiny (λ a. a) (omega arith) (omega arith) refl 0 refl
      (page_words ∷ page_words ∷ []) 0 (refl, (refl, tt)) (omega arith)

abbrev middle : Address
middle = record { page = 1; offset = 2 }

patch-page_example :
    (set_current_address tiny (λ a. a) 9 middle start
      ≡ some (true, kept tiny (λ a. a) 1 (2 / 2) 0, middle))
    × (write_all tiny (λ a. a) 9 (7 ∷ []) middle
        ≡ some (fills 2 (7 ∷ []), record { page = 1; offset = 4 }))
    × (write_current_page tiny (λ a. a) 9 (record { page = 1; offset = 4 })
        ≡ some (kept tiny (λ a. a) 1 ((8 - 4) / 2) 4 ++ flush tiny 1))
unfolding is_valid
patch-page_example =
    patch-page tiny (λ a. a) (omega arith) (omega arith) refl 8 middle start (7 ∷ []) refl refl
      (omega arith) (omega arith)

read_all-words_example :
    let (found, x) = set_reader_address tiny (address tiny 6) start in
    (found ≡ true) × ((read_all tiny (λ a. a) 2 x).0 ≡ 6 ∷ 8 ∷ [])
read_all-words_example =
    read_all-words tiny (λ a. a) refl tiny-IsSane 6 2 start (omega arith) refl (omega arith)
      (omega arith)
