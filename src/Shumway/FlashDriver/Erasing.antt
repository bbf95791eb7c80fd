-- ===== src/Shumway/FlashDriver/Erasing.antt =====
-- The flash driver erases the application's section: `full_erase_async` and the interrupts that follow.
use mathlib.Core.Path.{subst}
use avr_ha_lib.Prelude.{
  ℕ, zero, suc, ◌+◌, ◌-◌, ◌*◌, ◌/◌, ◌%◌, ◌^◌, ◌≤◌, ◌<◌, ◌≡◌, refl, sym, ◌∙◌, ◌⊎◌, inl, inr, Bool,
  true, false, not, some, ◌==◌, leb, ltb, if◌then◌else◌, arith, ℕ_discrete, if_cases, bit_and,
}
use avr_ha_lib.Prelude.Masks.{bit_and_step, bit_and-zero}
use avr_ha_lib.Shumway.FlashDriver.{
  Part, Driver, Handler, page_erase_handler, exit_handler, page_size, blank_byte,
  appl_section_size_w, irq_page_erase, irq_exit, call, run, full_erase_async,
}
use avr_ha_lib.Shumway.FlashDriver.Documentation.{Documented}
use avr_ha_lib.Shumway.FlashDriver.Running.{run-suc}

-- The bytes below `limit` are blank.
abbrev pub erased_below : ℕ → (ℕ → ℕ) → ℕ → ℕ
erased_below limit memory x = if ltb x limit then blank_byte else memory x

by_power :
    (k : ℕ)
    → k < 4
    → (4096 / 2 ^ k ≡ 4096) ⊎ (4096 / 2 ^ k ≡ 2048) ⊎ (4096 / 2 ^ k ≡ 1024) ⊎ (4096 / 2 ^ k ≡ 512)
by_power zero h = inl refl
by_power (suc zero) h = inr (inl refl)
by_power (suc (suc zero)) h = inr (inr (inl refl))
by_power (suc (suc (suc zero))) h = inr (inr (inr refl))
by_power (suc (suc (suc (suc k)))) h = absurd (omega arith)

-- The sizes of the boot section that the fuses choose from.
appl_section_size_w_cases :
    (fuses : ℕ)
    → (appl_section_size_w fuses ≡ 4096)
      ⊎ (appl_section_size_w fuses ≡ 2048)
      ⊎ (appl_section_size_w fuses ≡ 1024)
      ⊎ (appl_section_size_w fuses ≡ 512)
unfolding appl_section_size_w
appl_section_size_w_cases fuses = by_power (bit_and fuses 6 / 2) (
    omega (
      arith,
      bit_and_step fuses 6,
      bit_and_step (fuses / 2) 3,
      bit_and_step (fuses / 2 / 2) 1,
      bit_and-zero (fuses / 2 / 2 / 2) (fuses / 2 / 2 / 2) (omega arith),
    ))

module _ {M : Type 0} {p : Part M} {content buffered : ℕ → M → ℕ} {blocked : M → Bool}
    (doc : Documented p content buffered blocked) (ram : ℕ → ℕ) where
  -- The memory after a page at `a` and `j` pages behind it were erased.
  erased_page :
      (a d j x : ℕ) (m : M)
      → d ≡ a
      → a % page_size ≡ 0
      → (if leb (a + 256) x
          then erased_below (a + 256 + 256 * j) (λ y. content y (p.page_erase d m)) x
          else content x (p.page_erase d m))
        ≡ (if leb a x then erased_below (a + 256 * suc j) (λ y. content y m) x else content x m)
  erased_page a d j x m e h = elim (ℕ_discrete (x / 256) (d / 256)) [
    | yes same ↦ ground (arith, doc.erase_page d x m same)
    | no other ↦ ground (arith, doc.erase_other d x m other)
  ]

  -- The driver has told its client, and the bytes from `a` to `limit` are blank.
  record Erased (a limit calls : ℕ) (m : M) (t : Driver M) : Type 0 where
    released : t.cb ≡ false
    disabled : t.spmie ≡ false
    called : t.calls ≡ calls + 1
    readable : blocked t.part ≡ false
    content_at :
        (x : ℕ)
        → content x t.part
          ≡ (if leb a x then erased_below limit (λ y. content y m) x else content x m)

  Erased-more :
      (a d j calls : ℕ) (m : M) (t : Driver M)
      → d ≡ a
      → a % page_size ≡ 0
      → Erased (a + 256) (a + 256 + 256 * j) calls (p.page_erase d m) t
      → Erased a (a + 256 * suc j) calls m t
  Erased-more a d j calls m t e h w = record {
    released = w.released;
    disabled = w.disabled;
    called = w.called;
    readable = w.readable;
    content_at = λ x. w.content_at x ∙ erased_page a d j x m e h;
  }

  Ends : ℕ → (Driver M → Type 0) → Driver M → Type 0
  Ends k P s = (t : Driver M) × (run p ram k s ≡ some t) × P t

  Ends-suc :
      (k : ℕ) (P : Driver M → Type 0) (s : Driver M) (h : Handler)
      → s.spmie ≡ true
      → s.irq_handler ≡ some h
      → Ends k P (call p ram h s)
      → Ends (suc k) P s
  unfolding Ends
  Ends-suc k P s h e f (t, r, w) = (t, run-suc p ram s h k e f ∙ r, w)

  -- One page after the other is erased, then the callback is called.
  erase_pages :
      (j a : ℕ) (s : Driver M)
      → s.cb ≡ true
      → s.spmie ≡ true
      → s.irq_handler ≡ some page_erase_handler
      → s.num ≡ 128 * j
      → s.dest_addr ≡ a
      → a % page_size ≡ 0
      → a + 256 * j ≤ 2 ^ 17
      → Ends (j + 2) (Erased a (a + 256 * j) s.calls s.part) s
  unfolding call irq_page_erase Ends run
  erase_pages zero a s c e h n d al lim =
      let s' = record s { irq_handler = some exit_handler; part = p.rww_enable s.part } in
      let End : Driver M → Type 0 = Erased a (a + 256 * 0) s.calls s.part in
      Ends-suc 1 End s page_erase_handler e h (
        if_cases (Ends 1 End) (not (s.num == 0)) (λ test. absurd (ground arith))
          λ _. Ends-suc 0 End s' exit_handler e refl (
            irq_exit p ram s',
            refl,
            if_cases End s.cb
                (λ _. record {
                  released = refl;
                  disabled = refl;
                  called = refl;
                  readable = doc.enable_blocked s.part;
                  content_at = λ x. doc.enable_content x s.part ∙ ground arith;
                })
                (λ test. absurd (cc)),
          ))
  erase_pages (suc j) a s c e h n d al lim =
      let s' = record s {
        part = p.page_erase s.dest_addr s.part;
        dest_addr = (s.dest_addr + page_size) % 2 ^ 32;
        num = (s.num + 2 ^ 16 - page_size / 2) % 2 ^ 16;
      } in
      let End : Driver M → Type 0 = Erased a (a + 256 * suc j) s.calls s.part in
      let rounds : suc j + 2 ≡ suc (j + 2) = omega arith in
      let rest =
        erase_pages j (a + 256) s' c e h (omega (arith, n, lim)) (omega (arith, d, lim))
          (omega (arith, al)) (omega (arith, lim)) in
      subst (λ k. Ends k End s) (sym rounds)
        (Ends-suc (j + 2) End s page_erase_handler e h (
          if_cases (Ends (j + 2) End) (not (s.num == 0))
            (λ _. (rest.0, rest.1, Erased-more a s.dest_addr j s.calls s.part rest.0 d al rest.2))
            (λ test. absurd (ground arith))))

  -- The driver, with no callback registered, takes the request to erase and a callback. It erases all
  -- but the words that the fuses give to the boot section: after an interrupt for each of these pages
  -- and two more it has called the callback once and is free again, the memory can be read, all bytes
  -- before the boot section are 0xff, and those of the boot section are as they were.
  pub full_erase_async-erased :
      (fuses : ℕ) (s : Driver M)
      → s.cb ≡ false
      → let (refused, s') = full_erase_async p fuses true s in
        let words = 2 ^ 16 - appl_section_size_w fuses in
        (refused ≡ false)
        × ((t : Driver M) × (run p ram (words / 128 + 2) s' ≡ some t)
            × (t.cb ≡ false)
            × (t.spmie ≡ false)
            × (t.calls ≡ s.calls + 1)
            × (blocked t.part ≡ false)
            × ((x : ℕ) → content x t.part ≡ erased_below (2 * words) (λ y. content y s.part) x))
  unfolding Ends
  full_erase_async-erased fuses s free =
      let words = 2 ^ 16 - appl_section_size_w fuses in
      let P : Bool × Driver M → Type 0 = λ r.
        (r.0 ≡ false)
        × ((t : Driver M) × (run p ram (words / 128 + 2) r.1 ≡ some t)
            × (t.cb ≡ false)
            × (t.spmie ≡ false)
            × (t.calls ≡ s.calls + 1)
            × (blocked t.part ≡ false)
            × ((x : ℕ) → content x t.part ≡ erased_below (2 * words) (λ y. content y s.part) x)) in
      let size : ((words % 128 ≡ 0) × (words < 2 ^ 16)) × (0 < words) =
        elim (appl_section_size_w_cases fuses) [
          | inl h ↦ omega (arith, h)
          | inr (inl h) ↦ omega (arith, h)
          | inr (inr (inl h)) ↦ omega (arith, h)
          | inr (inr (inr h)) ↦ omega (arith, h)
        ] in
      if_cases P (not s.cb)
        (λ _.
          let s' = (full_erase_async p fuses true (record s { cb = false })).1 in
          let (t, r, w) =
            erase_pages (words / 128) 0 s' refl refl refl (omega (arith, size)) refl (omega arith)
              (omega (arith, size)) in
          (
            refl,
            (
              t,
              r,
              w.released,
              w.disabled,
              w.called,
              w.readable,
              λ x. w.content_at x ∙ ground (arith, size),
            ),
          ))
        (λ test. absurd (ground arith))
