-- ===== src/Shumway/Queue.antt =====
-- tools/bootloader/legacy/shumway/util/Bounded_Simple_Queue.h: a ring of `size` elements, with counts
-- of the readers and writers that an interrupt has caught in the middle. `uint8_t` sums are taken
-- mod 256; the operations are split where an interrupt can come.
pub mod Refine
pub mod Race
mod Tests
use avr_ha_lib.Prelude.{
  ℕ, ◌+◌, ◌-◌, ◌%◌, Bool, true, false, not, Option, none, some, List, [], ◌∷◌, ◌==◌, if◌then◌else◌,
  length, get_elem?, set,
}

-- The template's class.
pub record Queue {ℓ} (A : Type ℓ) : Type ℓ where
  pub front : ℕ
  pub back : ℕ
  pub fill : ℕ
  pub rthreads : ℕ
  pub wthreads : ℕ
  pub elements : List A

-- The constructor, on storage that holds whatever it holds.
unfoldable pub init {ℓ} : {A : Type ℓ} → List A → Queue A
init storage = record {
  front = 0;
  back = 0;
  fill = 0;
  rthreads = 0;
  wthreads = 0;
  elements = storage;
}

-- `++i; if (i == size) i = 0;`
abbrev pub wrap : ℕ → ℕ → ℕ
wrap size i = if (i + 1) % 256 == size then 0 else (i + 1) % 256

module _ {ℓ} {A : Type ℓ} (size : ℕ) where
  -- `(_fill + _wthreads) == __size`, in `int`.
  unfoldable pub full : Queue A → Bool
  full q = q.fill + q.wthreads == size

  -- `push` up to the store: `none` when it reports a full queue.
  unfoldable pub push_begin : Queue A → Option (Queue A)
  push_begin q = if full q then none else some (record q { wthreads = (q.wthreads + 1) % 256 })

  -- `_elements[_back + _wthreads - 1] = __t;`
  unfoldable pub push_store : A → Queue A → Queue A
  push_store x q = record q { elements = set q.elements (q.back + q.wthreads - 1) x }

  unfoldable pub push_end : Queue A → Queue A
  push_end q = record q {
    wthreads = (q.wthreads + 255) % 256;
    back = wrap size q.back;
    fill = (q.fill + 1) % 256;
  }

  -- `push`, not interrupted: the source returns `true` for a full queue.
  unfoldable pub push : A → Queue A → Bool × Queue A
  unfolding push_begin push_store push_end
  push x q = elim (push_begin q) [
    | none ↦ (true, q)
    | some q' ↦ (false, push_end (push_store x q'))
  ]

-- `(_fill - _rthreads) == 0`, in `int`.
unfoldable pub empty {ℓ} : {A : Type ℓ} → Queue A → Bool
empty q = q.fill == q.rthreads

module _ {ℓ} {A : Type ℓ} (size : ℕ) where
  unfoldable pub pop_end : Queue A → Queue A
  pop_end q = record q {
    rthreads = (q.rthreads + 255) % 256;
    front = wrap size q.front;
    fill = (q.fill + 255) % 256;
  }

  -- `pop`, not interrupted: the source returns `true` for an empty queue. The option in the middle is
  -- what goes to `__t`, `none` for a read out of range.
  unfoldable pub pop : Queue A → Bool × Option A × Queue A
  unfolding pop_end
  pop q =
      if empty q
      then (true, none, q)
      else (let q' = record q { rthreads = (q.rthreads + 1) % 256 } in
          (false, get_elem? q'.elements (q'.front + q'.rthreads - 1), pop_end q'))

  -- A push of `x` that an interrupt cuts between its count and its store; the interrupt pushes `y`.
  -- The results are those of the two calls, the outer one first.
  unfoldable pub push_interrupted : A → A → Queue A → Bool × Bool × Queue A
  push_interrupted x y q = elim (push_begin size q) [
    | none ↦ (true, true, q)
    | some q' ↦
        let (failed, q'') = push size y q' in (false, failed, push_end size (push_store size x q''))
  ]
