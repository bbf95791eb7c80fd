-- ===== src/Flash/Writing.antt =====
-- What `Writer` asks of the controller for a sequence of words.
use native.Mathlib.Nat.{mod-eq_of_lt}
use avr_ha_lib.Prelude.{
  ℕ, zero, suc, ◌+◌, ◌-◌, ◌*◌, ◌/◌, ◌%◌, ◌^◌, ◌≤◌, ◌<◌, ◌≡◌, ◌≢◌, refl, ap, ◌∙◌, true, some, List,
  [], ◌∷◌, ◌++◌, arith, if◌then◌else◌, length, All, flatten,
}
use avr_ha_lib.Flash.{
  Config, Command, buffer_write, wait_done, enable_rww, Address, linear_address, is_valid,
  erase_page, write_page, set_offset, end_of_page, next, next_page, preserve_word, preserve_below,
  preserve_from, set_current_address, write_current_page, write, write_all,
}

-- The page `page` at offset `o`.
abbrev at : ℕ → ℕ → Address
at page o = record { page = page; offset = o }

-- The words go into the page buffer one behind the other, each waited for.
abbrev pub fills : ℕ → List ℕ → List Command
fills o [] = []
fills o (w ∷ ws) = buffer_write o w ∷ wait_done ∷ fills (o + 2) ws

-- The buffer goes to the page.
abbrev pub flush : Config → ℕ → List Command
flush k page =
    (if k.auto_erase then erase_page k page ∷ wait_done ∷ [] else [])
    ++ write_page k page ∷ wait_done ∷ enable_rww ∷ []

-- `n` words of the memory go into the page buffer at their own offsets.
abbrev pub kept : Config → (ℕ → ℕ) → ℕ → ℕ → ℕ → List Command
kept k flash page zero o = []
kept k flash page (suc n) o =
    (if k.preserve_unset then buffer_write o (flash (linear_address k (at page o))) ∷ [] else [])
    ++ kept k flash page n (o + 2)

module _ (k : Config) (flash : ℕ → ℕ) (small : k.page_size < 2 ^ 16 - 2) where
  preserve_word_lem :
      (page o o' : ℕ)
      → o < k.page_size
      → preserve_word k flash o (at page o') ≡ (
          if k.preserve_unset
          then buffer_write o (flash (linear_address k (at page o))) ∷ []
          else [])
  unfolding preserve_word set_offset
  preserve_word_lem page o o' h = ground arith

  preserve_from_lem :
      (n f page o o' : ℕ)
      → n ≤ f
      → o + 2 * n ≡ k.page_size
      → preserve_from k flash (suc f) (at page o) (at page o') ≡ some (kept k flash page n o)
  unfolding preserve_from end_of_page next
  preserve_from_lem zero f page o o' le e = ground arith
  preserve_from_lem (suc n) zero page o o' le e = absurd (omega arith)
  preserve_from_lem (suc n) (suc f) page o o' le e = ground (
    arith,
    preserve_word_lem page o o',
    mod-eq_of_lt {n = o + 2} {m = 65536},
    preserve_from_lem n f page (o + 2) o' (omega arith) (omega arith),
  )

  preserve_below_lem :
      (n f page o o' : ℕ)
      → n ≤ f
      → o' < k.page_size
      → o + 2 * n ≡ o'
      → preserve_below k flash (suc f) o (at page o') ≡ some (kept k flash page n o)
  unfolding preserve_below
  preserve_below_lem zero f page o o' le h e = ground arith
  preserve_below_lem (suc n) zero page o o' le h e = absurd (omega arith)
  preserve_below_lem (suc n) (suc f) page o o' le h e = ground (
    arith,
    preserve_word_lem page o o',
    mod-eq_of_lt {n = o + 2} {m = 65536},
    preserve_below_lem n f page (o + 2) o' (omega arith) h (omega arith),
  )

  write_current_page_lem :
      (n f page o : ℕ)
      → n ≤ f
      → o + 2 * n ≡ k.page_size
      → write_current_page k flash (suc f) (at page o)
        ≡ some (kept k flash page n o ++ flush k page)
  unfolding write_current_page
  write_current_page_lem n f page o le e =
      rw (preserve_from_lem n f page o o le e, write_current_page)

  module _ (increments : k.auto_increment ≡ true) (f : ℕ) where
    write_inside :
        (w page o : ℕ)
        → o + 2 < k.page_size
        → write k flash (suc f) w (at page o)
          ≡ some (buffer_write o w ∷ wait_done ∷ [], at page (o + 2))
    unfolding write next end_of_page
    write_inside w page o h = ground (arith, mod-eq_of_lt {n = o + 2} {m = 65536})

    write_last :
        (w page o : ℕ)
        → k.auto_write_page ≡ true
        → o + 2 ≡ k.page_size
        → write k flash (suc f) w (at page o)
          ≡ some (buffer_write o w ∷ wait_done ∷ flush k page, at ((page + 1) % 2 ^ 16) 0)
    unfolding write next next_page end_of_page
    write_last w page o a h =
        ground
          (arith, mod-eq_of_lt {n = o + 2} {m = 65536}, write_current_page_lem 0 f page (o + 2))

    -- Words that do not fill the page stay in the buffer.
    write_all_inside :
        (ws : List ℕ) (page o : ℕ)
        → o + 2 * length ws < k.page_size
        → write_all k flash (suc f) ws (at page o) ≡ some (fills o ws, at page (o + 2 * length ws))
    unfolding write_all
    write_all_inside [] page o h = ground arith
    write_all_inside (w ∷ ws) page o h =
        ground (arith, write_inside w page o, write_all_inside ws page (o + 2) (omega arith))

    -- Words that fill the page have it written, and the next page begins.
    write_all_page :
        (ws : List ℕ) (page o : ℕ)
        → k.auto_write_page ≡ true
        → o + 2 * length ws ≡ k.page_size
        → ws ≢ []
        → (rest : List ℕ) (cs : List Command) (last : Address)
        → write_all k flash (suc f) rest (at ((page + 1) % 2 ^ 16) 0) ≡ some (cs, last)
        → write_all k flash (suc f) (ws ++ rest) (at page o)
          ≡ some (fills o ws ++ (flush k page ++ cs), last)
    unfolding write_all
    write_all_page [] page o a e ne rest cs last tail = absurd (ne refl)
    write_all_page (w ∷ []) page o a e ne rest cs last tail =
        ground (arith, write_last w page o a, tail)
    write_all_page (w ∷ v ∷ ws) page o a e ne rest cs last tail = ground (
      arith,
      write_inside w page o,
      write_all_page (v ∷ ws) page (o + 2) a (omega arith) (λ q. cc) rest cs last tail,
    )

-- The commands that program full pages, from the page `page` on.
abbrev pub program : Config → ℕ → List (List ℕ) → List Command
program k page [] = []
program k page (ws ∷ wss) = fills 0 ws ++ (flush k page ++ program k (page + 1) wss)

module _ (k : Config) (flash : ℕ → ℕ) (small : k.page_size < 2 ^ 16 - 2)
    (some_size : 0 < k.page_size) (increments : k.auto_increment ≡ true) (f : ℕ) where
  -- With automatic increment and page writes, pages of more than zero and fewer than 2^16 - 2 bytes
  -- and page numbers below 2^16, a stream of words that makes up whole pages programs exactly these
  -- pages, one after another, each from its first word to its last and then flushed; the writer stops
  -- at the start of the page behind them. One round of fuel is enough.
  pub write_all-program :
      k.auto_write_page ≡ true
      → (wss : List (List ℕ)) (page : ℕ) → All (λ ws. 2 * length ws ≡ k.page_size) wss
      → page + length wss < 2 ^ 16
      → write_all k flash (suc f) (flatten wss) (record { page = page; offset = 0 })
        ≡ some (program k page wss, record { page = page + length wss; offset = 0 })
  unfolding write_all
  write_all-program a [] page h fits = ground arith
  write_all-program a (ws ∷ wss) page h fits =
      write_all_page k flash small increments f ws page 0 a (omega (arith, h.0))
        (λ q. omega (arith, ap length q, h.0)) (flatten wss) (program k (page + 1) wss)
        (at (page + 1 + length wss) 0)
        (rw (mod-eq_of_lt {n = page + 1} {m = 2 ^ 16} (omega arith))
          (write_all-program a wss (page + 1) h.1 (omega arith)))
      ∙ ground arith

  -- Patching a page, with automatic increment and pages of an even number of bytes, more than zero and
  -- fewer than 2^16 - 2, with more rounds of fuel than a page has bytes: moving to a valid address,
  -- writing words that end before the page does, and writing the page out puts into the page buffer,
  -- at every offset of the page and in order, the memory's own word in front of the address and behind
  -- the words written (if unset words are to be preserved), and the words written in between; then the
  -- page is flushed.
  pub patch-page :
      (a current : Address) (ws : List ℕ)
      → k.page_size % 2 ≡ 0
      → is_valid k a ≡ true
      → a.offset + 2 * length ws < k.page_size
      → k.page_size ≤ f
      → (set_current_address k flash (suc f) a current
          ≡ some (true, kept k flash a.page (a.offset / 2) 0, a))
        × (write_all k flash (suc f) ws a
            ≡ some (fills a.offset ws, record { page = a.page; offset = a.offset + 2 * length ws }))
        × (write_current_page k flash
              (suc f)
              (record { page = a.page; offset = a.offset + 2 * length ws })
            ≡ some (
                kept k flash a.page
                  ((k.page_size - (a.offset + 2 * length ws)) / 2)
                  (a.offset + 2 * length ws)
                ++ flush k a.page))
  unfolding set_current_address is_valid
  patch-page a current ws ev v h le = (
    ground (arith, preserve_below_lem k flash small (a.offset / 2) f a.page 0 a.offset),
    write_all_inside k flash small increments f ws a.page a.offset h,
    write_current_page_lem k flash small ((k.page_size - behind) / 2) f a.page behind (omega arith)
        (omega (arith, even_offset)),
  )
    where
      behind : ℕ
      behind = a.offset + 2 * length ws

      even_offset : a.offset % 2 ≡ 0
      even_offset = ground arith
