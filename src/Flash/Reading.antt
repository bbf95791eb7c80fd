-- ===== src/Flash/Reading.antt =====
-- What `Reader` reads.
use native.Mathlib.Nat.{mod-eq_of_lt, div-add-mod'}
use avr_ha_lib.Prelude.{
  ℕ, zero, suc, ◌+◌, ◌*◌, ◌%◌, ◌^◌, ◌≤◌, ◌<◌, ◌≡◌, refl, true, List, [], ◌∷◌, arith, ap, ◌∙◌,
}
use avr_ha_lib.Flash.{
  Config, Address, address, linear_address, is_valid, next, read, read_all, set_reader_address,
}
use avr_ha_lib.Flash.Addressing.{IsSane, page-lt, product, fields, is_valid-address}

-- The `n` words of the memory from the byte address `a` on.
abbrev pub words : (ℕ → ℕ) → ℕ → ℕ → List ℕ
words flash zero a = []
words flash (suc n) a = flash a ∷ words flash n (a + 2)

module _ (k : Config) (flash : ℕ → ℕ) (increments : k.auto_increment ≡ true) where
  read_all_lem :
      (n : ℕ) (x : Address)
      → x.offset + 2 * n < 2 ^ 16
      → x.page * k.page_size + x.offset + 2 * n ≤ 2 ^ 32
      → (read_all k flash n x).0 ≡ words flash n (x.page * k.page_size + x.offset)
  unfolding read_all read next linear_address
  read_all_lem zero x h fits = refl
  read_all_lem (suc n) x h fits = ground (
    arith,
    mod-eq_of_lt {n = x.offset + 2} {m = 65536},
    mod-eq_of_lt {n = x.page * k.page_size + x.offset} {m = 4294967296},
    read_all_lem n (record { page = x.page; offset = x.offset + 2 }) (omega arith) (omega arith),
  )

  -- With automatic increment, a memory that is at least one and at most 2^16 whole pages, and pages of
  -- an even number of bytes, more than zero and fewer than 2^16: from an even address of the memory
  -- on, the reader delivers the memory's words one after another, across the ends of pages, as long as
  -- they lie in the memory and its 16-bit offset does not wrap.
  pub read_all-words :
      (s : IsSane k) (a n : ℕ) (current : Address)
      → a ≤ k.flash_end
      → a % 2 ≡ 0
      → a + 2 * n ≤ k.flash_end + 1
      → a % k.page_size + 2 * n < 2 ^ 16
      → let (found, x) = set_reader_address k (address k a) current in
        (found ≡ true) × ((read_all k flash n x).0 ≡ words flash n a)
  unfolding set_reader_address address
  read_all-words s a n current h ev inside fits = rw valid (refl, run)
    where
      valid : is_valid k (address k a) ≡ true
      valid = (is_valid-address k s a (omega (arith, page-lt k s a h, s.pages_small))).1 (h, ev)

      same : (address k a).page * k.page_size + (address k a).offset ≡ a
      same = rw ((fields k s a h).0, (fields k s a h).1) (div-add-mod' a k.page_size)

      run : (read_all k flash n (address k a)).0 ≡ words flash n a
      run =
          read_all_lem n (address k a) (omega (arith, fields k s a h))
            (omega (arith, same, product k s, s.whole))
          ∙ ap (words flash n) same
