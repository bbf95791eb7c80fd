-- ===== src/Shumway/Queue/Refine.antt =====
-- A valid ring behaves as a first-in first-out queue of at most `size` elements.
use avr_ha_lib.Prelude.{
  ℕ, zero, suc, ◌+◌, ◌-◌, ◌≤◌, ◌<◌, ◌≡◌, ◌≢◌, refl, sym, ap, ◌∙◌, Bool, true, false, Option, none,
  some, List, [], ◌∷◌, ◌++◌, arith, ◌==◌, if◌then◌else◌, length, length-set, get_elem?, set,
  get_elem?-set_self, get_elem?-set_ne, dec_lt, ltb,
}
use mathlib.Core.Path.{ap₂}
use avr_ha_lib.Shumway.Queue.{Queue, wrap, init, push, pop, full, empty}

-- The index `n` places behind `f`.
abbrev pub place : ℕ → ℕ → ℕ → ℕ
place size f n = if ltb (f + n) size then f + n else f + n - size

pub record IsValid {ℓ} {A : Type ℓ} (size : ℕ) (q : Queue A) : Type 0 where
  pub byte : size < 256
  pub storage : length q.elements ≡ size
  pub front_in : q.front < size
  pub fill_in : q.fill ≤ size
  pub behind : q.back ≡ place size q.front q.fill
  pub no_reader : q.rthreads ≡ 0
  pub no_writer : q.wthreads ≡ 0

wrap-lt : (size f : ℕ) → size < 256 → f < size → wrap size f < size
wrap-lt size f byte h = ground arith

place-wrap :
    (size f n : ℕ)
    → size < 256
    → f < size
    → suc n < size
    → place size f (suc n) ≡ place size (wrap size f) n
place-wrap size f n byte hf hn = ground arith

elsewhere :
    (size f n b : ℕ) → size < 256 → f < size → suc n < size → b ≡ place size f (suc n) → b ≢ f
elsewhere size f n b byte hf hn e = λ same. ground arith

module _ {ℓ} {A : Type ℓ} (size : ℕ) where
  -- The `n` slots from index `f` on, going round at the end of the storage.
  unfoldable pub slots : List A → ℕ → ℕ → List (Option A)
  slots es f zero = []
  slots es f (suc n) = get_elem? es f ∷ slots es (wrap size f) n

  pub slots-set :
      (es : List A) (f n b : ℕ) (x : A)
      → size < 256
      → length es ≡ size
      → f < size
      → n < size
      → b ≡ place size f n
      → slots (set es b x) f (suc n) ≡ slots es f n ++ some x ∷ []
  unfolding slots
  slots-set es f zero b x byte st hf hn e =
      let here : b ≡ f = ground arith in
      rw here (ap (λ o. o ∷ []) (get_elem?-set_self es f x (omega arith)))
  slots-set es f (suc n) b x byte st hf hn e =
      ap₂ ◌∷◌ (get_elem?-set_ne es x (elsewhere size f n b byte hf hn e)) (
        slots-set es (wrap size f) n b x byte st (wrap-lt size f byte hf) (omega arith)
          (e ∙ place-wrap size f n byte hf hn))

  pub slots-last :
      (es : List A) (f n : ℕ)
      → size < 256
      → f < size
      → n < size
      → slots es f (suc n) ≡ slots es f n ++ get_elem? es (place size f n) ∷ []
  unfolding slots
  slots-last es f zero byte hf hn = ap (λ i. get_elem? es i ∷ []) (ground arith)
  slots-last es f (suc n) byte hf hn = ap (◌∷◌ (get_elem? es f)) (
      slots-last es (wrap size f) n byte (wrap-lt size f byte hf) (omega arith)
      ∙ ap (λ i. slots es (wrap size f) n ++ get_elem? es i ∷ [])
          (sym (place-wrap size f n byte hf hn)))

-- The queue that a ring stands for, oldest first.
abbrev pub contents {ℓ} : {A : Type ℓ} → ℕ → Queue A → List (Option A)
contents size q = slots size q.elements q.front q.fill

-- A first-in first-out queue of at most `size` elements: `true` reports that it is full or empty.
module _ {ℓ} {A : Type ℓ} where
  abbrev pub fifo_push : ℕ → A → List (Option A) → Bool × List (Option A)
  fifo_push size x xs = if length xs == size then (true, xs) else (false, xs ++ some x ∷ [])

  abbrev pub fifo_pop : List (Option A) → Bool × Option A × List (Option A)
  fifo_pop [] = (true, none, [])
  fifo_pop (x ∷ xs) = (false, x, xs)

module _ {ℓ} {A : Type ℓ} (size : ℕ) where
  pub length-slots : (es : List A) (f n : ℕ) → length (slots size es f n) ≡ n
  unfolding slots
  length-slots es f zero = refl
  length-slots es f (suc n) = ap suc (length-slots es (wrap size f) n)

  module _ (q : Queue A) (v : IsValid size q) where
    push-full : (x : A) → q.fill ≡ size → push size x q ≡ (true, q)
    unfolding push full
    push-full x e = ground arith

    abbrev pushed : A → Queue A
    pushed x = record q {
      wthreads = 0;
      back = wrap size q.back;
      fill = q.fill + 1;
      elements = set q.elements q.back x;
    }

    push-room : (x : A) → q.fill < size → push size x q ≡ (false, pushed x)
    unfolding push full
    push-room x h = ground arith

    pushed-IsValid : (x : A) → q.fill < size → IsValid size (pushed x)
    pushed-IsValid x h = ground (arith, length-set q.elements q.back x)

    contents-pushed :
        (x : A) → q.fill < size → contents size (pushed x) ≡ contents size q ++ some x ∷ []
    contents-pushed x h =
        let one : q.fill + 1 ≡ suc q.fill = omega arith in
        rw one
          (slots-set size q.elements q.front q.fill q.back x v.byte v.storage v.front_in h v.behind)

    pop-empty : q.fill ≡ 0 → pop size q ≡ (true, none, q)
    unfolding pop empty
    pop-empty e = ground arith

    contents-empty : q.fill ≡ 0 → contents size q ≡ []
    unfolding slots
    contents-empty e = ap (slots size q.elements q.front) e

    abbrev popped : Queue A
    popped = record q { rthreads = 0; front = wrap size q.front; fill = q.fill - 1 }

    pop-some : 0 < q.fill → pop size q ≡ (false, get_elem? q.elements q.front, popped)
    unfolding pop empty
    pop-some h = ground arith

    popped-IsValid : 0 < q.fill → IsValid size popped
    popped-IsValid h = ground arith

    contents-popped :
        0 < q.fill → contents size q ≡ get_elem? q.elements q.front ∷ contents size popped
    unfolding slots
    contents-popped h =
        let one : q.fill ≡ suc (q.fill - 1) = omega arith in ap (slots size q.elements q.front) one

  -- `push` returns what the queue returns, leaves the ring with its contents, and keeps it valid.
  pub push-fifo :
      (x : A) (q : Queue A)
      → IsValid size q
      → let (failed, q') = push size x q in
        ((failed, contents size q') ≡ fifo_push size x (contents size q)) × IsValid size q'
  push-fifo x q v = elim (dec_lt q.fill size) [
    | yes h ↦
        rw (push-room q v x h, contents-pushed q v x h, length-slots q.elements q.front q.fill)
          (ground arith, pushed-IsValid q v x h)
    | no h ↦
        rw (push-full q v x (omega arith), length-slots q.elements q.front q.fill) (ground arith, v)
  ]

  -- `pop` returns what the queue returns, leaves the ring with the rest, and keeps it valid.
  pub pop-fifo :
      (q : Queue A)
      → IsValid size q
      → let (failed, x, q') = pop size q in
        ((failed, x, contents size q') ≡ fifo_pop (contents size q)) × IsValid size q'
  pop-fifo q v = elim (dec_lt 0 q.fill) [
    | yes h ↦ rw (pop-some q v h, contents-popped q v h) (refl, popped-IsValid q v h)
    | no h ↦ rw (pop-empty q v (omega arith), contents-empty q v (omega arith)) (refl, v)
  ]

-- A client's calls in order, with what each returns.
pub data Call {ℓ} (A : Type ℓ) : Type ℓ where
  put : A → Call A
  get : Call A

module _ {ℓ} {A : Type ℓ} (size : ℕ) where
  abbrev pub run : Queue A → List (Call A) → List (Bool × Option A)
  run q [] = []
  run q (put x ∷ cs) = let (failed, q') = push size x q in (failed, none) ∷ run q' cs
  run q (get ∷ cs) = let (failed, x, q') = pop size q in (failed, x) ∷ run q' cs

  abbrev pub fifo_run : List (Option A) → List (Call A) → List (Bool × Option A)
  fifo_run xs [] = []
  fifo_run xs (put x ∷ cs) =
      let (failed, xs') = fifo_push size x xs in (failed, none) ∷ fifo_run xs' cs
  fifo_run xs (get ∷ cs) = let (failed, x, xs') = fifo_pop xs in (failed, x) ∷ fifo_run xs' cs

  run_lem :
      (cs : List (Call A)) (q : Queue A) → IsValid size q → run q cs ≡ fifo_run (contents size q) cs
  run_lem [] q v = refl
  run_lem (put x ∷ cs) q v =
      let (same, v') = push-fifo size x q v in rw (run_lem cs (push size x q).1 v', ← same) refl
  run_lem (get ∷ cs) q v =
      let (same, v') = pop-fifo size q v in rw (run_lem cs (pop size q).2 v', ← same) refl

  -- From a new queue on, without interruption, every sequence of pushes and pops returns what the
  -- first-in first-out queue of at most `size` elements returns.
  pub run-fifo :
      (storage : List A) (cs : List (Call A))
      → 0 < size
      → size < 256
      → length storage ≡ size
      → run (init storage) cs ≡ fifo_run [] cs
  unfolding init slots
  run-fifo storage cs pos byte st = run_lem cs (init storage) new
    where
      new : IsValid size (init storage)
      new = ground arith
