-- ===== src/Shumway/Memory/Management.antt =====
-- What `get`, `attach` and `free` do to the pieces, over any contents.
use avr_ha_lib.Prelude.{
  ℕ, zero, suc, ◌≤◌, ◌<◌, ◌≡◌, ◌⊎◌, inl, inr, refl, sym, ap, ◌∙◌, true, false, Option, none, some,
  List, [], ◌∷◌, arith, get_elem?, ℕ_discrete, Bool-cases,
}
use mathlib.Core.Bool.{true≢false}
use avr_ha_lib.Shumway.Memory.{
  Handle, shm_num, shm_size, lock, unlock, room, is_unfit, scan, update, get, attach, free,
}

-- No piece below `n` suits.
abbrev pub NoneSuits : ℕ → List Handle → ℕ → Type 0
NoneSuits wanted hs n = (j : ℕ) → j < n → is_unfit wanted (get_elem? hs j) ≡ true

-- The key `k` is the highest one below `n` that suits.
pub record IsHighest (wanted : ℕ) (hs : List Handle) (n k : ℕ) : Type 0 where
  pub below : k < n
  pub suits : is_unfit wanted (get_elem? hs k) ≡ false
  pub above : (j : ℕ) → k < j → j < n → is_unfit wanted (get_elem? hs j) ≡ true

one_more : (P : ℕ → Type 0) (n : ℕ) → P n → (j : ℕ) → (j < n → P j) → j < suc n → P j
one_more P n p j below h = elim (ℕ_discrete j n) [
  | yes same ↦ rw same p
  | no other ↦ below (omega arith)
]

scan-cases :
    (wanted : ℕ) (hs : List Handle) (n : ℕ)
    → n ≤ 0xff
    → ((scan wanted hs n ≡ 0xff) × NoneSuits wanted hs n) ⊎ IsHighest wanted hs n (scan wanted hs n)
unfolding scan
scan-cases wanted hs zero le = inl (refl, λ j h. absurd (omega arith))
scan-cases wanted hs (suc n) le = elim (Bool-cases (is_unfit wanted (get_elem? hs n))) [
  | inl e ↦ rw e (elim (scan-cases wanted hs n (omega arith)) [
    | inl (o, all) ↦
        inl (o, λ j. one_more (λ i. is_unfit wanted (get_elem? hs i) ≡ true) n e j (all j))
    | inr high ↦ inr (record {
      below = omega (arith, high.below);
      suits = high.suits;
      above =
          λ j lt. one_more (λ i. is_unfit wanted (get_elem? hs i) ≡ true) n e j (high.above j lt);
    })
  ])
  | inr e ↦
      rw e (inr (record { below = omega arith; suits = e; above = λ j lt h. absurd (omega arith) }))
]

pub get_elem?-update :
    (f : Handle → Handle) (hs : List Handle) (k : ℕ) {h : Handle}
    → get_elem? hs k ≡ some h
    → get_elem? (update f hs k) k ≡ some (f h)
get_elem?-update f [] k e = absurd cc
get_elem?-update f (g ∷ hs) zero e = ground arith
get_elem?-update f (g ∷ hs) (suc k) e = get_elem?-update f hs k e

suits-some :
    (wanted : ℕ) (o : Option Handle)
    → is_unfit wanted o ≡ false
    → (h : Handle) × (o ≡ some h) × (h.locked ≡ false) × (wanted ≤ room h)
suits-some wanted none e = absurd cc
suits-some wanted (some h) e = (h, refl, ground arith, ground arith)

attach-locked :
    (hs : List Handle) (k : ℕ) (h : Handle)
    → k < shm_num
    → get_elem? hs k ≡ some h
    → attach k (update lock hs k) ≡ some (record { block = k; at = h.offset })
unfolding attach
attach-locked hs k h lt e = rw (get_elem?-update lock hs k e) (ground arith)

get-at :
    (wanted : ℕ) (hs : List Handle) (i : ℕ)
    → scan wanted hs shm_num ≡ i
    → i < shm_num
    → get wanted hs ≡ (false, some i, update lock hs i)
unfolding get
get-at wanted hs i e lt = rw e (ground arith)

pub free-at : (k : ℕ) (hs : List Handle) → k < shm_num → free k hs ≡ (false, update unlock hs k)
unfolding free
free-at k hs lt = ground arith

unlocked-suits :
    (wanted : ℕ) (h : Handle)
    → h.size ≡ shm_size
    → wanted ≤ shm_size
    → is_unfit wanted (some (unlock h)) ≡ false
unfolding room
unlocked-suits wanted h size le = rw size (ground arith)

-- What `get` may do: report failure and change nothing when no piece suits, or lock one piece.
pub data Outcome (wanted : ℕ) (hs : List Handle) : Type 0 where
  failed : get wanted hs ≡ (true, none, hs) → NoneSuits wanted hs shm_num → Outcome wanted hs
  found :
      (k : ℕ) (h : Handle)
      → get wanted hs ≡ (false, some k, update lock hs k)
      → IsHighest wanted hs shm_num k
      → get_elem? hs k ≡ some h
      → h.locked ≡ false
      → wanted ≤ room h
      → attach k (update lock hs k) ≡ some (record { block = k; at = h.offset })
      → Outcome wanted hs

-- `get` either reports failure, changing nothing, and then every piece is locked or too small; or it
-- locks the suitable piece of the highest key, which was not locked and has the room asked for, and
-- nothing else, and `attach` then gives the pointer to it.
pub get-Outcome : (wanted : ℕ) (hs : List Handle) → Outcome wanted hs
unfolding get
get-Outcome wanted hs = elim (scan-cases wanted hs shm_num (omega arith)) [
  | inl (e, all) ↦ failed (rw e refl) all
  | inr high ↦
      let (h, e, unheld, fits) =
        suits-some wanted (get_elem? hs (scan wanted hs shm_num)) high.suits in
      found (scan wanted hs shm_num) h (get-at wanted hs (scan wanted hs shm_num) refl high.below)
        high e unheld fits (attach-locked hs (scan wanted hs shm_num) h high.below e)
]

-- When the piece of a key in range has the size that the class gives all pieces, then after a `free`
-- of that key a request of at most SHM_SIZE bytes is met, whatever else is locked.
pub free-get :
    (wanted k : ℕ) (h : Handle) (hs : List Handle)
    → k < shm_num
    → get_elem? hs k ≡ some h
    → h.size ≡ shm_size
    → wanted ≤ shm_size
    → let (_, hs') = free k hs in
      (key : ℕ) × (get wanted hs' ≡ (false, some key, update lock hs' key))
free-get wanted k h hs lt e size le =
    rw (free-at k hs lt) (elim (get-Outcome wanted (update unlock hs k)) [
      | failed g all ↦ absurd (
          true≢false (
            sym (all k lt)
            ∙ ap (is_unfit wanted) (get_elem?-update unlock hs k e)
            ∙ unlocked-suits wanted h size le))
      | found key h' g high at free fits att ↦ (key, g)
    ])
