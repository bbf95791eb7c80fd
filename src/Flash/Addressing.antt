-- ===== src/Flash/Addressing.antt =====
-- Linear addresses and the pair of page and offset.
use native.Mathlib.Nat.{
  div-add-mod', mod-lt, mod-eq_of_lt, mul-le-mul, div-lt_iff_lt-mul, le-div_iff_mul-le,
}
use avr_ha_lib.Prelude.{ℕ, ◌+◌, ◌-◌, ◌*◌, ◌/◌, ◌%◌, ◌^◌, ◌≤◌, ◌<◌, ◌≡◌, ap, true, arith, ◌↔◌}
use avr_ha_lib.Flash.{Config, address, is_valid, linear_address}

-- Page sizes of a flash memory: even, two or more bytes, and the memory a whole number of pages, all
-- within the driver's types.
pub record IsSane (k : Config) : Type 0 where
  pub nonempty : 0 < k.page_size
  pub even : k.page_size % 2 ≡ 0
  pub small : k.page_size < 2 ^ 16
  pub pages : ℕ
  pub pages_small : pages ≤ 2 ^ 16
  pub whole : k.flash_end + 1 ≡ pages * k.page_size
  pub some_page : 0 < pages

module _ (k : Config) (s : IsSane k) where
  open s use {nonempty, even, small, pages, pages_small, whole, some_page}

  pub page-lt : (a : ℕ) → a ≤ k.flash_end → a / k.page_size < pages
  page-lt a h = grind arith

  pub fields :
      (a : ℕ)
      → a ≤ k.flash_end
      → (a / k.page_size % 2 ^ 16 ≡ a / k.page_size) × (a % k.page_size % 2 ^ 16 ≡ a % k.page_size)
  fields a h = omega (arith, page-lt a h)

  pub product : pages * k.page_size ≤ 2 ^ 16 * 2 ^ 16
  product = mul-le-mul {m₂ = 2 ^ 16} pages_small (omega arith)

  flash-lt : (a : ℕ) → a ≤ k.flash_end → a < 2 ^ 32
  flash-lt a h = omega (arith, product)

  -- An address of the memory and its page and offset determine each other.
  pub linear_address-address : (a : ℕ) → a ≤ k.flash_end → linear_address k (address k a) ≡ a
  unfolding linear_address address
  linear_address-address a h =
      rw ((fields a h).0, (fields a h).1, div-add-mod' a k.page_size) (mod-eq_of_lt (flash-lt a h))

  last_page : k.flash_end / k.page_size + 1 ≡ pages
  last_page = omega (arith, page-lt k.flash_end (omega arith), below)
    where
      front : (pages - 1) * k.page_size ≤ k.flash_end
      front = grind arith

      below : pages - 1 ≤ k.flash_end / k.page_size
      below = (le-div_iff_mul-le nonempty).1 front

  even_product : (q : ℕ) → q * k.page_size % 2 ≡ 0
  even_product q = omega (arith, ap (λ (t : ℕ). q * t) halves)
    where
      halves : k.page_size ≡ 2 * (k.page_size / 2)
      halves = omega arith

  parity : (a : ℕ) → a % k.page_size % 2 ≡ a % 2
  parity a = omega (arith, div-add-mod' a k.page_size, even_product (a / k.page_size))

  in_memory : (a : ℕ) → a / k.page_size < pages → a ≤ k.flash_end
  in_memory a h = omega (arith, (div-lt_iff_lt-mul nonempty).0 h)

  size : (a : ℕ) → a % k.page_size < k.page_size
  size a = mod-lt a nonempty

  -- `isValid` accepts exactly the even addresses of the memory, among those whose page number fits
  -- its type.
  pub is_valid-address :
      (a : ℕ)
      → a / k.page_size < 2 ^ 16
      → (is_valid k (address k a) ≡ true) ↔ ((a ≤ k.flash_end) × (a % 2 ≡ 0))
  unfolding is_valid address
  is_valid-address a h = (
    (λ e. (in_memory a (ground (arith, last_page, size a)), ground (arith, parity a, size a))),
    λ e. ground (arith, last_page, size a, parity a, page-lt a e.0),
  )
