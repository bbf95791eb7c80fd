-- ===== src/Shumway/FlashDriver/Programming.antt =====
-- The flash driver programs a buffer: `write_buffer_async` and the interrupts that follow.
use mathlib.Core.Path.{subst}
use avr_ha_lib.Prelude.{
  ℕ, zero, suc, ◌+◌, ◌-◌, ◌*◌, ◌/◌, ◌%◌, ◌^◌, ◌≤◌, ◌<◌, ◌≡◌, refl, ap, ◌∙◌, ◌⊎◌, inl, inr, Bool,
  true, false, not, ◌&&◌, some, ◌==◌, arith, dec_lt, if_cases,
}
use avr_ha_lib.Shumway.Image.{patched}
use avr_ha_lib.Shumway.FlashDriver.{
  Part, Driver, page_load_handler, exit_handler, page_size, blank_byte, aligned, irq_page_load,
  irq_exit, call, run, write_buffer_async,
}
use avr_ha_lib.Shumway.FlashDriver.Documentation.{Documented}
use avr_ha_lib.Shumway.FlashDriver.Running.{
  run-disabled, run-add, on, Within, Within_now, Within-suc, Within_then,
}
use avr_ha_lib.Shumway.FlashDriver.Paging.{load_page, turn_page}
use avr_ha_lib.Shumway.FlashDriver.Loading.{Settled, Loading}

module _ {M : Type 0} {p : Part M} {content buffered : ℕ → M → ℕ} {blocked : M → Bool}
    (doc : Documented p content buffered blocked) (ram : ℕ → ℕ) (addr len buffer : ℕ)
    (memory : ℕ → ℕ) (calls : ℕ) where
  abbrev In : ℕ → ℕ → Driver M → Type 0
  In b k s = Loading doc ram addr len buffer memory calls b k s

  module _ (ram_bound : (i : ℕ) → ram i < 256)
      (blank : (x : ℕ)
        → aligned addr + page_size ≤ x
        → x < (addr + len + 255) / page_size * page_size
        → memory x ≡ blank_byte) where
    -- Pages are loaded and written until the buffer is used up.
    pages :
        (j b : ℕ) (s : Driver M)
        → addr + len ≤ b + page_size * j
        → 0 < len
        → In b 0 s
        → Within p ram (130 * j) s (λ t. (b' : ℕ) × (addr + len ≤ b') × In b' 0 t)
    pages zero b s e any l = Within_now p ram (130 * 0) _ s (b, omega arith, l)
    pages (suc j) b s e any l =
        let End : Driver M → Type 0 = λ t. (b' : ℕ) × (addr + len ≤ b') × In b' 0 t in
        elim (dec_lt b (addr + len)) [
          | no over ↦ Within_now p ram (130 * suc j) End s (b, omega arith, l)
          | yes more ↦
              let turned : Within p ram (128 + 2) s (In (b + page_size) 0) =
                Within_then p ram 128 2 (In b page_size) (In (b + page_size) 0) s
                  (load_page doc ram addr len buffer memory calls ram_bound blank 128 b 0 s
                    (omega arith) any more l)
                  (turn_page doc ram addr len buffer memory calls ram_bound blank b) in
              let rest : Within p ram (128 + 2 + 130 * j) s End =
                Within_then p ram (128 + 2) (130 * j) (In (b + page_size) 0) End s turned
                  (λ t l'. pages j (b + page_size) t (omega (arith, e)) any l') in
              subst (λ k. Within p ram k s End) (omega arith) rest
        ]

    -- What holds when the driver has told its client.
    pub record Written (t : Driver M) : Type 0 where
      pub released : t.cb ≡ false
      pub disabled : t.spmie ≡ false
      pub called : t.calls ≡ calls + 1
      pub readable : blocked t.part ≡ false
      pub empty : (i : ℕ) → i < page_size → buffered i t.part ≡ blank_byte
      pub content_at :
          (x : ℕ)
          → (Settled addr len x ⊎ ((addr + len + 255) / page_size * page_size ≤ x))
          → content x t.part ≡ patched addr len (λ i. ram (buffer + i)) memory x

    content_written :
        (b : ℕ) (s : Driver M) (x : ℕ)
        → (addr + len ≤ b) ⊎ (len ≡ 0)
        → In b 0 s
        → (Settled addr len x ⊎ ((addr + len + 255) / page_size * page_size ≤ x))
        → content x s.part ≡ patched addr len (λ i. ram (buffer + i)) memory x
    content_written b s x over l place =
        let unchanged : b ≤ x → memory x ≡ patched addr len (λ i. ram (buffer + i)) memory x =
          λ le. elim over [ inl h ↦ ground arith | inr h ↦ ground arith ] in
        elim (dec_lt x b) [
          | no le ↦ l.above x (omega arith) ∙ unchanged (omega arith)
          | yes lt ↦ l.below x lt (elim place [
            | inl settled ↦ settled
            | inr beyond ↦ inr (omega (arith, l.cursor.near, l.cursor.base))
          ])
        ]

    finish :
        (b : ℕ) (s : Driver M) → (addr + len ≤ b) ⊎ (len ≡ 0) → In b 0 s → Within p ram 2 s Written
    unfolding call irq_page_load
    finish b s over l =
        let cur = l.cursor in
        let s' = record s { irq_handler = some exit_handler; part = p.rww_enable s.part } in
        let P : Driver M → Type 0 = λ u. Within p ram 1 u Written in
        let spent : (s.num == 0 && s.tmp_buffer_fill == 0) ≡ true = elim over [
          | inl h ↦ ground arith
          | inr h ↦ ground arith
        ] in
        Within-suc p ram 1 Written s page_load_handler l.enabled l.handler (
          if_cases P (s.tmp_buffer_fill == page_size) (λ h. absurd (ground arith))
            λ _.
              if_cases P (s.num == 0 && s.tmp_buffer_fill == 0)
                (λ _. Within-suc p ram 0 Written s' exit_handler l.enabled refl (
                  Within_now p ram 0 Written (irq_exit p ram s') (
                    if_cases Written s.cb
                      (λ _. record {
                        released = refl;
                        disabled = refl;
                        called = ap (λ n. n + 1) l.called;
                        readable = doc.enable_blocked s.part;
                        empty = λ i lt. doc.enable_buffered i s.part lt;
                        content_at =
                            λ x h. doc.enable_content x s.part ∙ content_written b s x over l h;
                      })
                      (λ h. absurd (cc)))))
                (λ h. absurd (cc)))

    write_buffer_async-Loading :
        (s : Driver M)
        → s.cb ≡ false
        → s.calls ≡ calls
        → addr + len ≤ 2 ^ 17
        → blocked s.part ≡ false
        → ((i : ℕ) → i < page_size → buffered i s.part ≡ blank_byte)
        → ((x : ℕ) → content x s.part ≡ memory x)
        → ((write_buffer_async p addr buffer len true s).0 ≡ false)
          × In (aligned addr) 0 (write_buffer_async p addr buffer len true s).1
    write_buffer_async-Loading s free c limit readable empty same =
        if_cases (λ (r : Bool × Driver M). (r.0 ≡ false) × In (aligned addr) 0 r.1) (not s.cb)
          (λ _. (
            refl,
            record {
              cursor = ground arith;
              even = omega arith;
              within = omega arith;
              handler = refl;
              registered = refl;
              enabled = refl;
              called = c;
              begun = λ h. absurd (omega arith);
              filled = λ i h. absurd (omega arith);
              empty = λ i _ lt. empty i lt;
              above = λ x _. same x;
              below = λ x lt _. same x ∙ ground arith;
              readable = λ _. readable;
            },
          ))
          (λ h. absurd (ground arith))

    -- Interrupts that have ended the work leave it ended, however many more are counted.
    Written-run :
        (k : ℕ) (s : Driver M)
        → Within p ram k s Written
        → (t : Driver M) × (run p ram k s ≡ some t) × Written t
    Written-run k s (n, t, b, r, w) =
        let all : n + (k - n) ≡ k = omega arith in
        (
          t,
          subst (λ j. run p ram j s ≡ some t) all
              (run-add p ram n (k - n) s
                ∙ ap (on p ram (k - n)) r
                ∙ run-disabled p ram (k - n) t w.disabled),
          w,
        )

    run-Written :
        (s : Driver M)
        → In (aligned addr) 0 s
        → Within p ram (130 * ((addr % page_size + len + 255) / page_size) + 2) s Written
    run-Written s l =
        let pages_left = (addr % page_size + len + 255) / page_size in
        elim (dec_lt 0 len) [
          | yes any ↦
              Within_then p ram (130 * pages_left) 2 (λ t. (b' : ℕ) × (addr + len ≤ b') × In b' 0 t)
                Written s (pages pages_left (aligned addr) s (omega arith) any l)
                (λ t (b', over, l'). finish b' t (inl over) l')
          | no nothing ↦
              Within_then p ram (130 * pages_left) 2 (In (aligned addr) 0) Written s
                (Within_now p ram (130 * pages_left) (In (aligned addr) 0) s l)
                (λ t l'. finish (aligned addr) t (inr (omega arith)) l')
        ]

    pub write_buffer_async-Written :
        (s : Driver M)
        → s.cb ≡ false
        → s.calls ≡ calls
        → addr + len ≤ 2 ^ 17
        → blocked s.part ≡ false
        → ((i : ℕ) → i < page_size → buffered i s.part ≡ blank_byte)
        → ((y : ℕ) → content y s.part ≡ memory y)
        → let (refused, s') = write_buffer_async p addr buffer len true s in
          (refused ≡ false)
          × ((t : Driver M) × (run p ram (130 * ((addr % page_size + len + 255) / page_size) + 2) s'
                ≡ some t)
              × Written t)
    write_buffer_async-Written s free c limit readable empty same =
        let (taken, l) = write_buffer_async-Loading s free c limit readable empty same in
        let s' = (write_buffer_async p addr buffer len true s).1 in
        (
          taken,
          Written-run (130 * ((addr % page_size + len + 255) / page_size) + 2) s'
              (run-Written s' l),
        )

    -- The driver, with no callback registered, takes a callback and a buffer that ends in the flash
    -- memory. After 130 interrupts for each page that the buffer touches and two more, or however few
    -- of them it needs, it has called the callback once and is free again, the memory can be read, and
    -- the byte at `x` is the buffer's if it lies there and as it was elsewhere. Conditions: the buffer
    -- holds bytes, the memory could be read at the start, the page buffer was empty, all pages after
    -- the first were blank, and `x` does not lie between the buffer's end and the end of its last
    -- page, if that is not the first.
    pub write_buffer_async-patched :
        (s : Driver M) (x : ℕ)
        → s.cb ≡ false
        → s.calls ≡ calls
        → addr + len ≤ 2 ^ 17
        → blocked s.part ≡ false
        → ((i : ℕ) → i < page_size → buffered i s.part ≡ blank_byte)
        → ((y : ℕ) → content y s.part ≡ memory y)
        → (Settled addr len x ⊎ ((addr + len + 255) / page_size * page_size ≤ x))
        → let (refused, s') = write_buffer_async p addr buffer len true s in
          (refused ≡ false)
          × ((t : Driver M) × (run p ram (130 * ((addr % page_size + len + 255) / page_size) + 2) s'
                ≡ some t)
              × (t.cb ≡ false)
              × (t.spmie ≡ false)
              × (t.calls ≡ calls + 1)
              × (blocked t.part ≡ false)
              × (content x t.part ≡ patched addr len (λ i. ram (buffer + i)) memory x))
    write_buffer_async-patched s x free c limit readable empty same place =
        let (taken, (t, r, w)) = write_buffer_async-Written s free c limit readable empty same in
        (taken, (t, r, w.released, w.disabled, w.called, w.readable, w.content_at x place))
