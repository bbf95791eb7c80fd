-- ===== src/Shumway/FlashDriver/Loading.antt =====
-- `_irq_page_load_handler` of the flash driver: what holds while the page buffer is loaded.
use Prim.Native.Nat.{max}
use mathlib.Core.Path.{subst}
use avr_ha_lib.Prelude.{
  ℕ, ◌+◌, ◌-◌, ◌*◌, ◌/◌, ◌%◌, ◌^◌, ◌≤◌, ◌<◌, ◌≡◌, refl, sym, ap, ◌∙◌, ◌⊎◌, inl, inr, Bool, true,
  false, ◌&&◌, some, leb, ltb, arith, Bool-cases, if_both, dec_lt, ℕ_discrete,
}
use avr_ha_lib.Shumway.Image.{patched}
use avr_ha_lib.Shumway.FlashDriver.{
  Part, Driver, page_load_handler, page_size, blank_byte, aligned, takes, next_byte, advance,
  load_word,
}
use avr_ha_lib.Shumway.FlashDriver.Documentation.{Documented}

-- The addresses up to the buffer's end, and all of the first page.
abbrev pub Settled : ℕ → ℕ → ℕ → Type 0
Settled addr len x = (x < addr + len) ⊎ (x < aligned addr + page_size)

-- With `k` bytes of the page at `b` loaded, the variables say what is left of the buffer.
pub record Cursor {M : Type 0} (addr len buffer b k : ℕ) (s : Driver M) : Type 0 where
  pub base : b % page_size ≡ 0
  pub first : aligned addr ≤ b
  pub reached : addr < b + page_size
  pub near : b < addr + len + page_size
  pub limit : addr + len ≤ 2 ^ 17
  pub tmp : s.tmp_addr ≡ b + k
  pub fill : s.tmp_buffer_fill ≡ k
  pub dest : s.dest_addr ≡ max addr b
  pub left : s.num ≡ len - (b + k - addr)
  pub taken : s.buffer ≡ buffer + (len - (len - (b + k - addr)))

advance-Cursor :
    {M : Type 0} {s : Driver M} (p : Part M) (ram : ℕ → ℕ) (addr len buffer b k : ℕ)
    → Cursor addr len buffer b k s
    → k < page_size
    → Cursor addr len buffer b (k + 1) (advance p ram s)
unfolding advance
advance-Cursor p ram addr len buffer b k c lt = ground arith

Cursor-part :
    {M : Type 0} {addr len buffer b k : ℕ} {s : Driver M} (m : M)
    → Cursor addr len buffer b k s
    → Cursor addr len buffer b k (record s { part = m; spmie = true })
Cursor-part m c = ground arith

module _ {M : Type 0} {p : Part M} {content buffered : ℕ → M → ℕ} {blocked : M → Bool}
    (doc : Documented p content buffered blocked) (ram : ℕ → ℕ) (addr len buffer : ℕ)
    (memory : ℕ → ℕ) where
  abbrev want : ℕ → ℕ
  want = patched addr len (λ i. ram (buffer + i)) memory

  -- What a word adds to the page buffer.
  page_fill-filled :
      (m : M) (a w k : ℕ) (S : ℕ → Type 0) (v : ℕ → ℕ)
      → a % page_size ≡ k
      → k % 2 ≡ 0
      → k < page_size
      → ((i : ℕ) → k ≤ i → i < page_size → buffered i m ≡ blank_byte)
      → ((i : ℕ) → i < k → S i → buffered i m ≡ v i)
      → (S k → w % 256 ≡ v k)
      → (S (k + 1) → w / 256 % 256 ≡ v (k + 1))
      → (i : ℕ) → i < k + 2
      → S i
      → buffered i (p.page_fill a w m) ≡ v i
  page_fill-filled m a w k S v e even lt empty filled low high i below h =
      let even' : a % 2 ≡ 0 = omega arith in
      let first : buffered (a % page_size) m ≡ blank_byte =
        empty (a % page_size) (omega arith) (omega arith) in
      let next : buffered (a % page_size + 1) m ≡ blank_byte =
        empty (a % page_size + 1) (omega arith) (omega arith) in
      elim (dec_lt i k) [
        | yes less ↦
            doc.fill_other a w i m even' (λ q. omega arith) (λ q. omega arith) ∙ filled i less h
        | no more ↦ elim (ℕ_discrete i k) [
          | yes here ↦
              let here' : i ≡ a % page_size = omega arith in
              rw here' (doc.fill_low a w m even' first next)
              ∙ low (subst S here h)
              ∙ ap v (sym here)
          | no further ↦
              let here : i ≡ k + 1 = omega arith in
              let here' : i ≡ a % page_size + 1 = omega arith in
              rw here' (doc.fill_high a w m even' first next)
              ∙ high (subst S here h)
              ∙ ap v (sym here)
        ]
      ]

  page_fill-empty :
      (m : M) (a w k : ℕ)
      → a % page_size ≡ k
      → k % 2 ≡ 0
      → k < page_size
      → ((i : ℕ) → k ≤ i → i < page_size → buffered i m ≡ blank_byte)
      → (i : ℕ) → k + 2 ≤ i
      → i < page_size
      → buffered i (p.page_fill a w m) ≡ blank_byte
  page_fill-empty m a w k e even lt empty i above below =
      doc.fill_other a w i m (omega arith) (λ q. omega arith) (λ q. omega arith)
      ∙ empty i (omega arith) below

  -- The next byte is the one that the memory shall hold, if the page can be read where that is needed.
  next_byte-want :
      {s : Driver M} (b k : ℕ)
      → Cursor addr len buffer b k s
      → (b ≤ addr → blocked s.part ≡ false)
      → content (b + k) s.part ≡ memory (b + k)
      → Settled addr len (b + k)
      → next_byte p ram s ≡ want (b + k)
  unfolding next_byte
  next_byte-want {s = s} b k c readable same settled =
      elim (Bool-cases (leb addr (b + k) && ltb (b + k) (addr + len))) [
        | inl inside ↦
            let here : takes p ram s ≡ true = ground arith in
            let at : s.buffer ≡ buffer + (b + k - addr) = ground arith in
            rw (inside, here) (ap ram at)
        | inr outside ↦
            let elsewhere : takes p ram s ≡ false = ground arith in
            let early : b ≤ addr = ground arith in
            let read : p.read_byte s.tmp_addr s.part ≡ memory (b + k) =
              ap (λ t. p.read_byte t s.part) c.tmp
              ∙ doc.read_byte_content (b + k) s.part (readable early)
              ∙ same in
            rw (outside, elsewhere) read
      ]

  next_byte_bound : (s : Driver M) → ((i : ℕ) → ram i < 256) → next_byte p ram s < 256
  unfolding next_byte
  next_byte_bound s h =
      if_both (λ d. d < 256) (takes p ram s) (h s.buffer) (doc.read_byte_bound s.tmp_addr s.part)

  -- The page at `b` with `k` of its bytes in the page buffer, all of the memory below it written.
  pub record Loading (calls b k : ℕ) (s : Driver M) : Type 0 where
    pub cursor : Cursor addr len buffer b k s
    pub even : k % 2 ≡ 0
    pub within : k ≤ page_size
    pub handler : s.irq_handler ≡ some page_load_handler
    pub registered : s.cb ≡ true
    pub enabled : s.spmie ≡ true
    pub called : s.calls ≡ calls
    pub begun : 0 < k → b < addr + len
    pub filled : (i : ℕ) → i < k → Settled addr len (b + i) → buffered i s.part ≡ want (b + i)
    pub empty : (i : ℕ) → k ≤ i → i < page_size → buffered i s.part ≡ blank_byte
    pub above : (x : ℕ) → b ≤ x → content x s.part ≡ memory x
    pub below : (x : ℕ) → x < b → Settled addr len x → content x s.part ≡ want x
    pub readable : b ≤ addr → blocked s.part ≡ false

  module _ (ram_bound : (i : ℕ) → ram i < 256) where
    -- The bytes of the word that is loaded.
    word_bytes :
        (a b : ℕ)
        → a < 256
        → b < 256
        → ((a + b * 2 ^ 8) % 2 ^ 16 % 256 ≡ a) × ((a + b * 2 ^ 8) % 2 ^ 16 / 256 % 256 ≡ b)
    word_bytes a b h k = omega arith

    -- A word more is loaded.
    pub load_word-Loading :
        {s : Driver M} {calls : ℕ} (b k : ℕ)
        → Loading calls b k s
        → k < page_size
        → b < addr + len
        → Loading calls b (k + 2) (load_word p ram s)
    unfolding advance
    load_word-Loading {s = s} b k l lt more =
        let cur = l.cursor in
        let m = s.part in
        let second = advance p ram s in
        let c' : Cursor addr len buffer b (k + 1) second =
          advance-Cursor p ram addr len buffer b k cur lt in
        let c'' : Cursor addr len buffer b (k + 1 + 1) (advance p ram second) =
          advance-Cursor p ram addr len buffer b (k + 1) c' (omega (arith, l.even)) in
        let n = next_byte p ram s in
        let n' = next_byte p ram second in
        let w = (n + n' * 2 ^ 8) % 2 ^ 16 in
        let a = ((advance p ram second).tmp_addr + 2 ^ 32 - 2) % 2 ^ 32 in
        let at : a ≡ b + k = omega (arith, c''.tmp, cur.near, cur.limit) in
        let a' : a % page_size ≡ k = omega (arith, at, cur.base) in
        let bytes =
          word_bytes n n' (next_byte_bound s ram_bound) (next_byte_bound second ram_bound) in
        let same : (x : ℕ) → b ≤ x → content x m ≡ memory x = l.above in
        let low : Settled addr len (b + k) → w % 256 ≡ want (b + k) =
          λ h. bytes.0 ∙ next_byte-want b k cur l.readable (same (b + k) (omega arith)) h in
        let high : Settled addr len (b + (k + 1)) → w / 256 % 256 ≡ want (b + (k + 1)) = λ h.
          bytes.1 ∙ next_byte-want b (k + 1) c' l.readable (same (b + (k + 1)) (omega arith)) h in
        record {
          cursor =
              Cursor-part (p.page_fill a w m)
                (subst (λ j. Cursor addr len buffer b j (advance p ram second)) (omega arith) c'');
          even = omega (arith, l.even);
          within = omega (arith, l.even);
          handler = l.handler;
          registered = l.registered;
          enabled = refl;
          called = l.called;
          begun = λ _. more;
          filled =
              page_fill-filled m a w k (λ i. Settled addr len (b + i)) (λ i. want (b + i)) a' l.even
                lt l.empty l.filled low high;
          empty = page_fill-empty m a w k a' l.even lt l.empty;
          above = λ x h. doc.fill_content a w x m ∙ l.above x h;
          below = λ x h k. doc.fill_content a w x m ∙ l.below x h k;
          readable = λ h. doc.fill_blocked a w m ∙ l.readable h;
        }
