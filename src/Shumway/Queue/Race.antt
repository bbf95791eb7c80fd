-- ===== src/Shumway/Queue/Race.antt =====
-- A push that an interrupt's push cuts in two.
use avr_ha_lib.Prelude.{
  ℕ, zero, suc, ◌+◌, ◌≤◌, ◌<◌, ◌≡◌, refl, sym, ap, ◌∙◌, false, some, List, [], ◌∷◌, ◌++◌, arith,
  append_assoc, get_elem?, set,
}
use avr_ha_lib.Shumway.Queue.{Queue, wrap, push, push_interrupted, full}
use avr_ha_lib.Shumway.Queue.Refine.{IsValid, contents, place, slots-set, slots-last}

set-set {ℓ} : {A : Type ℓ} (xs : List A) (i : ℕ) (x y : A) → set (set xs i y) i x ≡ set xs i x
set-set [] i x y = refl
set-set (z ∷ xs) zero x y = refl
set-set (z ∷ xs) (suc i) x y = ap (◌∷◌ z) (set-set xs i x y)

module _ {A : Type 0} (size : ℕ) where
  -- The elements that a cut push leaves, with both stores on the same place.
  abbrev cut : A → Queue A → Queue A
  cut x q = record q {
    wthreads = 0;
    back = wrap size (q.back + 1);
    fill = q.fill + 2;
    elements = set q.elements (q.back + 1) x;
  }

  push_interrupted-cut :
      (x y : A) (q : Queue A)
      → IsValid size q
      → q.fill + 2 ≤ size
      → q.back + 1 < size
      → push_interrupted size x y q ≡ (false, false, cut x q)
  unfolding push_interrupted push full
  push_interrupted-cut x y q v room inside = ground (arith, set-set q.elements (q.back + 1) x y)

  -- In a valid queue with at least two free places, whose next place is not beyond the end of the array:
  -- where an interrupt pushes `y` between the count and the store of a push of `x`, both calls report
  -- success, but the queue then holds what lay in the free slot, and `x`: `y` is lost.
  pub push_interrupted-loses :
      (x y : A) (q : Queue A)
      → IsValid size q
      → q.fill + 2 ≤ size
      → q.back + 1 < size
      → let (outer, inner, q') = push_interrupted size x y q in
        (outer ≡ false)
        × (inner ≡ false)
        × (contents size q' ≡ contents size q ++ (get_elem? q.elements q.back ∷ some x ∷ []))
  push_interrupted-loses x y q v room inside =
      rw (push_interrupted-cut x y q v room inside) (refl, refl, held)
    where
      two : q.fill + 2 ≡ suc (suc q.fill)
      two = omega arith

      held :
          contents size (cut x q) ≡ contents size q ++ (get_elem? q.elements q.back ∷ some x ∷ [])
      held = rw two (
          slots-set size q.elements q.front (suc q.fill) (q.back + 1) x v.byte v.storage v.front_in
            (omega arith) (ground (arith, v.behind))
          ∙ (ap (λ l. l ++ some x ∷ [])
                (slots-last size q.elements q.front q.fill v.byte v.front_in (omega arith))
              ∙ (append_assoc _ (get_elem? q.elements (place size q.front q.fill) ∷ [])
                    (some x ∷ [])
                  ∙ ap (λ i. contents size q ++ (get_elem? q.elements i ∷ some x ∷ []))
                      (sym v.behind))))
