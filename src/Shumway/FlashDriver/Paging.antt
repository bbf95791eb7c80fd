-- ===== src/Shumway/FlashDriver/Paging.antt =====
-- The flash driver loads and writes one page.
use mathlib.Core.Path.{subst}
use avr_ha_lib.Prelude.{
  ℕ, zero, suc, ◌+◌, ◌-◌, ◌*◌, ◌/◌, ◌%◌, ◌^◌, ◌≤◌, ◌<◌, ◌≡◌, refl, sym, ap, ◌∙◌, inl, inr, Bool,
  false, ◌&&◌, Option, some, ◌==◌, arith, Bool-cases, dec_lt, if_cases,
}
use avr_ha_lib.Shumway.Image.{patched}
use avr_ha_lib.Shumway.FlashDriver.{
  Part, Driver, Handler, page_load_handler, page_write_handler, page_size, blank_byte, aligned,
  differs, page_blank_check, load_word, write_page, irq_page_load, call,
}
use avr_ha_lib.Shumway.FlashDriver.Documentation.{Documented, SamePage}
use avr_ha_lib.Shumway.FlashDriver.Running.{Within, Within_now, Within-suc}
use avr_ha_lib.Shumway.FlashDriver.Loading.{Settled, Loading, load_word-Loading}

differs-blank :
    {M : Type 0} (p : Part M) (n a : ℕ) (m : M)
    → differs p n a m ≡ false
    → a + n < 2 ^ 32
    → (i : ℕ) → i < n
    → p.read_byte (a + i) m ≡ blank_byte
unfolding differs
differs-blank p zero a m e b i lt = absurd (omega arith)
differs-blank p (suc n) a m e b i lt =
    let up : (a + 1) % 2 ^ 32 ≡ a + 1 = omega arith in
    elim (Bool-cases (p.read_byte a m == blank_byte)) [
      | inl blank ↦
          elim i as (λ i. i < suc n → p.read_byte (a + i) m ≡ blank_byte) [
            | zero ↦ λ _. let z : a + 0 ≡ a = omega arith in rw z (ground arith)
            | suc j ↦ λ h.
                let z : a + suc j ≡ a + 1 + j = omega arith in
                rw z
                  (differs-blank p n (a + 1) m (rw (blank, up) at e) (omega arith) j (omega arith))
          ]
            lt
      | inr other ↦ absurd (cc (rw other at e))
    ]

module _ {M : Type 0} {p : Part M} {content buffered : ℕ → M → ℕ} {blocked : M → Bool}
    (doc : Documented p content buffered blocked) (ram : ℕ → ℕ) (addr len buffer : ℕ)
    (memory : ℕ → ℕ) (calls : ℕ) where
  abbrev In : ℕ → ℕ → Driver M → Type 0
  In b k s = Loading doc ram addr len buffer memory calls b k s

  -- A page that is loaded and blank is written.
  write_page-Loading :
      (b : ℕ) (s : Driver M) (h : Option Handler) (m : M)
      → In b page_size s
      → ((y : ℕ) → SamePage y s.dest_addr → content y m ≡ blank_byte)
      → ((y : ℕ) → ¬ SamePage y s.dest_addr → content y m ≡ content y s.part)
      → ((i : ℕ) → buffered i m ≡ buffered i s.part)
      → In (b + page_size) 0 (write_page p ram (record s { irq_handler = h; part = m }))
  write_page-Loading b s h m l blank others kept =
      let cur = l.cursor in
      let a = s.dest_addr in
      let busy : b < addr + len = l.begun (omega arith) in
      let same : (x : ℕ) → ¬ SamePage x a → content x (p.page_write a m) ≡ content x s.part =
        λ x d. doc.write_other a x m d ∙ others x d in
      record {
        cursor = ground arith;
        even = omega arith;
        within = omega arith;
        handler = refl;
        registered = l.registered;
        enabled = l.enabled;
        called = l.called;
        begun = λ i. absurd (omega arith);
        filled = λ i lt. absurd (omega arith);
        empty = λ i _ lt. doc.write_buffered a i m lt;
        above = λ x le.
            same x (λ q. omega (arith, q, cur.base, cur.reached, cur.first, cur.dest, le))
            ∙ l.above x (omega arith);
        below = λ x lt settled. elim (dec_lt x b) [
          | yes earlier ↦
              same x (λ q. omega (arith, q, cur.base, cur.dest, cur.reached))
              ∙ l.below x earlier settled
          | no here ↦
              let one : SamePage x a = omega (arith, cur.base, cur.reached, cur.dest) in
              let off : x % page_size ≡ x - b = omega (arith, cur.base) in
              let back : b + (x - b) ≡ x = omega arith in
              doc.write_page a x m blank one
              ∙ kept (x % page_size)
              ∙ ap (λ i. buffered i s.part) off
              ∙ l.filled (x - b) (omega arith) (subst (Settled addr len) (sym back) settled)
              ∙ ap (patched addr len (λ i. ram (buffer + i)) memory) back
        ];
        readable = λ le. absurd (omega arith);
      }

  module _ (ram_bound : (i : ℕ) → ram i < 256)
      (blank : (x : ℕ)
        → aligned addr + page_size ≤ x
        → x < (addr + len + 255) / page_size * page_size
        → memory x ≡ blank_byte) where
    -- The rest of a page is loaded.
    pub load_page :
        (j b k : ℕ) (s : Driver M)
        → k + 2 * j ≡ page_size
        → 0 < len
        → b < addr + len
        → In b k s
        → Within p ram j s (In b page_size)
    unfolding call irq_page_load
    load_page zero b k s e any more l =
        Within_now p ram 0 (In b page_size) s (subst (λ i. In b i s) (omega (arith, e)) l)
    load_page (suc j) b k s e any more l =
        let cur = l.cursor in
        let full : (s.tmp_buffer_fill == page_size) ≡ false = ground arith in
        let going : (s.num == 0 && s.tmp_buffer_fill == 0) ≡ false = ground arith in
        let P : Driver M → Type 0 = λ u. Within p ram j u (In b page_size) in
        Within-suc p ram j (In b page_size) s page_load_handler l.enabled l.handler (
          if_cases P (s.tmp_buffer_fill == page_size) (λ h. absurd (cc))
            λ _.
              if_cases P (s.num == 0 && s.tmp_buffer_fill == 0) (λ h. absurd (cc))
                λ _. load_page j b (k + 2) (load_word p ram s) (omega (arith, e)) any more (
                  load_word-Loading doc ram addr len buffer memory ram_bound b k l
                    (omega (arith, e)) more))

    -- A page that the check finds blank is blank: the first can be read, and the others were blank.
    blank_page :
        (b : ℕ) (s : Driver M)
        → In b page_size s
        → page_blank_check p s.dest_addr s.part ≡ false
        → (y : ℕ) → SamePage y s.dest_addr
        → content y s.part ≡ blank_byte
    unfolding page_blank_check
    blank_page b s l e y same = elim (dec_lt addr b) [
      | yes later ↦
          l.above y (omega (arith, l.cursor.base, l.cursor.dest, same))
          ∙ blank y (omega (arith, l.cursor.base, l.cursor.first, l.cursor.dest, same))
              (omega (arith, l.begun, l.cursor.base, l.cursor.reached, l.cursor.dest, same))
      | no first ↦
          let a = aligned s.dest_addr in
          let near : a ≡ b = omega (arith, l.cursor.base, l.cursor.dest, l.cursor.reached) in
          let back : a + (y - b) ≡ y =
            omega (arith, l.cursor.base, l.cursor.dest, l.cursor.reached, same) in
          let shown : p.read_byte (a + (y - b)) s.part ≡ blank_byte =
            differs-blank p page_size a s.part e
              (omega (arith, near, l.cursor.near, l.cursor.limit)) (y - b)
              (omega (arith, back, near, same)) in
          sym (doc.read_byte_content y s.part (l.readable (omega arith)))
          ∙ ap (λ z. p.read_byte z s.part) (sym back)
          ∙ shown
    ]

    -- A full page buffer is written.
    pub turn_page :
        (b : ℕ) (s : Driver M) → In b page_size s → Within p ram 2 s (In (b + page_size) 0)
    unfolding call irq_page_load
    turn_page b s l =
        let cur = l.cursor in
        let a = s.dest_addr in
        let next = In (b + page_size) 0 in
        let P : Driver M → Type 0 = λ u. Within p ram 1 u next in
        Within-suc p ram 1 next s page_load_handler l.enabled l.handler (
          if_cases P (s.tmp_buffer_fill == page_size)
            (λ _.
              if_cases P (page_blank_check p a s.part)
                (λ _.
                  Within-suc p ram 0 next
                    (record s {
                      part = p.page_erase a s.part;
                      irq_handler = some page_write_handler;
                    })
                    page_write_handler l.enabled refl
                    (Within_now p ram 0 next
                      (write_page p ram (record s {
                        part = p.page_erase a s.part;
                        irq_handler = some page_write_handler;
                      }))
                      (write_page-Loading b s (some page_write_handler) (p.page_erase a s.part) l
                        (λ y h. doc.erase_page a y s.part h) (λ y h. doc.erase_other a y s.part h)
                        (λ i. doc.erase_buffered a i s.part))))
                (λ fine.
                  Within_now p ram 1 next
                    (record s {
                      part = p.page_write a s.part;
                      tmp_buffer_fill = 0;
                      dest_addr = s.tmp_addr;
                    })
                    (subst
                      (λ h. next (record s {
                        irq_handler = h;
                        part = p.page_write a s.part;
                        tmp_buffer_fill = 0;
                        dest_addr = s.tmp_addr;
                      }))
                      (sym l.handler)
                      (write_page-Loading b s s.irq_handler s.part l (blank_page b s l fine)
                        (λ y _. refl) (λ i. refl)))))
            (λ h. absurd (ground arith)))
