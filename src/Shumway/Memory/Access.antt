-- ===== src/Shumway/Memory/Access.antt =====
-- Loads and stores behind pointers into the shared memory.
use avr_ha_lib.Prelude.{
  ℕ, zero, suc, ◌+◌, ◌-◌, ◌≤◌, ◌<◌, ◌≡◌, refl, sym, ap, ◌∙◌, inl, inr, true, Option, none, some,
  List, [], ◌∷◌, ◌++◌, leb, if◌then◌else◌, length, get_elem?, set, take, drop, arith, length-append,
  length-take, length-drop, get_elem?-set_self, Option-cases, Bool-cases, append_assoc, take-append,
  length-set,
}
use avr_ha_lib.Shumway.Memory.{Handle, Pointer, load, store}

module _ {ℓ} {A : Type ℓ} where
  take-take : (d n : ℕ) (xs : List A) → d ≤ n → take d (take n xs) ≡ take d xs
  take-take zero n xs h = refl
  take-take (suc d) zero xs h = absurd (omega arith)
  take-take (suc d) (suc n) [] h = refl
  take-take (suc d) (suc n) (x ∷ xs) h = ap (◌∷◌ x) (take-take d n xs (omega arith))

  drop-take : (d n k : ℕ) (xs : List A) → n ≡ d + k → drop d (take n xs) ≡ take k (drop d xs)
  drop-take zero n k xs h = ap (λ j. take j xs) (omega (arith, h))
  drop-take (suc d) zero k xs h = absurd (omega arith)
  drop-take (suc d) (suc n) zero [] h = refl
  drop-take (suc d) (suc n) (suc k) [] h = refl
  drop-take (suc d) (suc n) k (x ∷ xs) h = drop-take d n k xs (omega (arith, h))

  drop-drop : (a b c : ℕ) (xs : List A) → c ≡ b + a → drop a (drop b xs) ≡ drop c xs
  drop-drop a zero c xs h = ap (λ j. drop j xs) (omega (arith, h))
  drop-drop a (suc b) zero xs h = absurd (omega arith)
  drop-drop zero (suc b) (suc c) [] h = refl
  drop-drop (suc a) (suc b) (suc c) [] h = refl
  drop-drop a (suc b) (suc c) (x ∷ xs) h = drop-drop a b c xs (omega (arith, h))

  pub drop-append_at : (a : ℕ) (xs ys : List A) → a ≡ length xs → drop a (xs ++ ys) ≡ ys
  drop-append_at zero [] ys h = refl
  drop-append_at zero (x ∷ xs) ys h = absurd (omega arith)
  drop-append_at (suc a) [] ys h = absurd (omega arith)
  drop-append_at (suc a) (x ∷ xs) ys h = drop-append_at a xs ys (omega arith)

-- A load of `n` bytes as a function of the piece.
abbrev view : ℕ → ℕ → List ℕ → Option (List ℕ)
view at n bs = if leb (at + n) (length bs) then some (take n (drop at bs)) else none

load-view :
    (p : Pointer) (i n : ℕ) (hs : List Handle) (h : Handle)
    → get_elem? hs p.block ≡ some h
    → load p i n hs ≡ view (p.at + i) n h.data_bytes
unfolding load
load-view p i n hs h e = rw (e, load) refl

load-missing :
    (p : Pointer) (i n : ℕ) (hs : List Handle) → get_elem? hs p.block ≡ none → load p i n hs ≡ none
unfolding load
load-missing p i n hs e = rw (e, load) refl

view-inside :
    (at n : ℕ) (bs : List ℕ) → at + n ≤ length bs → view at n bs ≡ some (take n (drop at bs))
view-inside at n bs h = let e : leb (at + n) (length bs) ≡ true = ground arith in rw e refl

-- The first and the remaining bytes of a load can be loaded by themselves.
pub load_parts :
    (p : Pointer) (i n d : ℕ) (hs : List Handle) (bs : List ℕ)
    → load p i n hs ≡ some bs
    → d ≤ n
    → (load p i d hs ≡ some (take d bs))
      × (load p (i + d) (n - d) hs ≡ some (drop d bs))
      × (length bs ≡ n)
load_parts p i n d hs bs e le = elim (Option-cases (get_elem? hs p.block)) [
  | inl missing ↦ absurd (cc (sym (load-missing p i n hs missing) ∙ e))
  | inr (h, here) ↦
      let m = h.data_bytes in
      let v = sym (load-view p i n hs h here) ∙ e in
      elim (Bool-cases (leb (p.at + i + n) (length m))) [
        | inr outside ↦ absurd (cc (rw outside at v))
        | inl inside ↦
            let all : take n (drop (p.at + i) m) ≡ bs = cc (rw inside at v) in
            let fits : p.at + i + n ≤ length m = ground arith in
            let at = p.at + i in
            (
              load-view p i d hs h here
                  ∙ view-inside at d m (omega (arith, fits, le))
                  ∙ ap some (sym (take-take d n (drop at m) le) ∙ ap (take d) all),
              load-view p (i + d) (n - d) hs h here
                  ∙ view-inside (p.at + (i + d)) (n - d) m (omega (arith, fits, le))
                  ∙ ap some (
                      ap (take (n - d)) (sym (drop-drop d at (p.at + (i + d)) m (omega arith)))
                      ∙ sym (drop-take d n (n - d) (drop at m) (omega (arith, le)))
                      ∙ ap (drop d) all),
              sym (ap length all)
                  ∙ length-take n (drop at m)
                  ∙ omega (arith, length-drop at m, fits),
            )
      ]
]

-- A store of bytes as a function of the piece.
abbrev stored : ℕ → List ℕ → List ℕ → List ℕ
stored at bs m = take at m ++ bs ++ drop (at + length bs) m

length-stored :
    (at : ℕ) (bs m : List ℕ) → at + length bs ≤ length m → length (stored at bs m) ≡ length m
length-stored at bs m h =
    length-append (take at m ++ bs) (drop (at + length bs) m)
    ∙ omega
        (arith, length-append (take at m) bs, length-take at m, length-drop (at + length bs) m, h)

view-stored :
    (at : ℕ) (bs m : List ℕ)
    → at + length bs ≤ length m
    → view at (length bs) (stored at bs m) ≡ some bs
view-stored at bs m h =
    let front : length (take at m) ≡ at = length-take at m ∙ omega (arith, h) in
    let tail = drop (at + length bs) m in
    view-inside at (length bs) (stored at bs m) (rw (length-stored at bs m h) h)
    ∙ ap some (
        ap (take (length bs)) (
          ap (drop at) (append_assoc (take at m) bs tail)
          ∙ drop-append_at at (take at m) (bs ++ tail) (sym front))
        ∙ take-append bs tail)

-- What is stored inside a piece can be loaded.
pub load-store :
    (p : Pointer) (i : ℕ) (bs : List ℕ) (hs : List Handle) (h : Handle)
    → get_elem? hs p.block ≡ some h
    → p.block < length hs
    → p.at + i + length bs ≤ length h.data_bytes
    → (hs' : List Handle) × (store p i bs hs ≡ some hs')
      × (hs' ≡ set hs p.block (record h { data_bytes = stored (p.at + i) bs h.data_bytes }))
      × (load p i (length bs) hs' ≡ some bs)
unfolding store
load-store p i bs hs h here lt fits =
    let at = p.at + i in
    let m = h.data_bytes in
    let h' = record h { data_bytes = stored at bs m } in
    let hs' = set hs p.block h' in
    let inside : leb (at + length bs) (length m) ≡ true = ground arith in
    (
      hs',
      rw (here, inside, store) refl,
      refl,
      load-view p i (length bs) hs' h' (get_elem?-set_self hs p.block h' lt)
          ∙ view-stored at bs m fits,
    )

stored-stored :
    (at : ℕ) (a b m : List ℕ)
    → at + length a + length b ≤ length m
    → stored (at + length a) b (stored at a m) ≡ stored at (a ++ b) m
stored-stored at a b m h =
    let front = take at m ++ a in
    let tail = drop (at + length a) m in
    let size : at + length a ≡ length front =
      sym (length-append (take at m) a ∙ omega (arith, length-take at m, h)) in
    let head : take (at + length a) (front ++ tail) ≡ front =
      ap (λ n. take n (front ++ tail)) size ∙ take-append front tail in
    let rest : drop (at + length a + length b) (front ++ tail) ≡ drop (at + length (a ++ b)) m =
      sym (drop-drop (length b) (at + length a) (at + length a + length b) (front ++ tail) refl)
      ∙ ap (drop (length b)) (drop-append_at (at + length a) front tail size)
      ∙ drop-drop (length b) (at + length a) (at + length (a ++ b)) m
          (omega (arith, length-append a b)) in
    ap (λ t. t ++ b ++ drop (at + length a + length b) (front ++ tail)) head
    ∙ ap (λ t. front ++ b ++ t) rest
    ∙ ap (λ t. t ++ drop (at + length (a ++ b)) m) (append_assoc (take at m) a b)

-- Two stores one behind the other, inside a piece, can be loaded as one.
pub load-store_twice :
    (p : Pointer) (a b : List ℕ) (hs : List Handle) (h : Handle)
    → get_elem? hs p.block ≡ some h
    → p.block < length hs
    → p.at + length a + length b ≤ length h.data_bytes
    → (hs' hs'' : List Handle) × (store p 0 a hs ≡ some hs')
      × (store p (length a) b hs' ≡ some hs'')
      × (load p 0 (length a + length b) hs'' ≡ some (a ++ b))
      × ((bytes : List ℕ) × (get_elem? hs'' p.block ≡ some (record h { data_bytes = bytes })))
load-store_twice p a b hs h here lt fits =
    let zero_in : p.at + 0 ≡ p.at = omega arith in
    let (hs', s, e, l) = load-store p 0 a hs h here lt (omega (arith, fits)) in
    let h' = record h { data_bytes = stored (p.at + 0) a h.data_bytes } in
    let here' : get_elem? hs' p.block ≡ some h' =
      ap (λ x. get_elem? x p.block) e ∙ get_elem?-set_self hs p.block h' lt in
    let lt' : p.block < length hs' = rw e (rw (length-set hs p.block h') lt) in
    let size : length h'.data_bytes ≡ length h.data_bytes =
      length-stored (p.at + 0) a h.data_bytes (omega (arith, fits)) in
    let (hs'', s', e', l') =
      load-store p (length a) b hs' h' here' lt' (omega (arith, fits, size)) in
    let m'' = stored (p.at + length a) b h'.data_bytes in
    let h'' = record h { data_bytes = m'' } in
    let here'' : get_elem? hs'' p.block ≡ some h'' =
      ap (λ x. get_elem? x p.block) e' ∙ get_elem?-set_self hs' p.block h'' lt' in
    let n = length a + length b in
    let joined : m'' ≡ stored (p.at + 0) (a ++ b) h.data_bytes =
      ap (λ x. stored (p.at + length a) b (stored x a h.data_bytes)) zero_in
      ∙ stored-stored p.at a b h.data_bytes fits
      ∙ ap (λ x. stored x (a ++ b) h.data_bytes) (sym zero_in) in
    (
      hs',
      hs'',
      s,
      s',
      load-view p 0 n hs'' h'' here''
          ∙ ap (view (p.at + 0) n) joined
          ∙ ap (λ k. view (p.at + 0) k (stored (p.at + 0) (a ++ b) h.data_bytes))
              (sym (length-append a b))
          ∙ view-stored (p.at + 0) (a ++ b) h.data_bytes (omega (arith, fits, length-append a b)),
      (m'', here''),
    )
