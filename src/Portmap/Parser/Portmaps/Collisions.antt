-- ===== src/Portmap/Parser/Portmaps/Collisions.antt =====
-- The check for collisions counts the pins that two blocks have.
use mathlib.Core.Path.{subst}
use avr_ha_lib.Prelude.{
  ℕ, zero, suc, ◌+◌, ◌-◌, ◌≤◌, ◌<◌, ◌≡◌, refl, sym, ◌↔◌, Bool, true, false, ◌&&◌, List, [], ◌∷◌,
  ◌==◌, leb, if◌then◌else◌, arith, Bool-cases, inl, inr, All, ==_iff,
}
use avr_ha_lib.Portmap.Description.{PinBlock}
use avr_ha_lib.Portmap.Parser.{hits, collisions_of_two, collisions_with, collisions}

-- The pin `i` is one of the block.
abbrev pub Has : PinBlock → ℕ → Type 0
Has p i = (p.first_pin ≤ i) × (i ≤ p.last_pin)

-- The blocks have no pin of a port in common.
abbrev pub Apart : PinBlock → PinBlock → Type 0
Apart p q = (i : ℕ) → p.port ≡ q.port → Has p i → Has q i → ⊥

-- No two blocks of the list have a pin in common.
abbrev pub Disjoint : List PinBlock → Type 0
Disjoint [] = Unit
Disjoint (p ∷ ps) = All (Apart p) ps × Disjoint ps

none_of_both : (b : Bool) (n : ℕ) → (if b then 1 else 0) + n ≡ 0 → (b ≡ false) × (n ≡ 0)
none_of_both true n h = absurd (omega arith)
none_of_both false n h = (refl, omega arith)

in_block : (p : PinBlock) (i : ℕ) → Has p i ↔ ((leb p.first_pin i && leb i p.last_pin) ≡ true)
in_block p i = (λ h. (let (low, high) = h in ground arith), λ h. (ground arith, ground arith))

hits_none : (p : PinBlock) (n i : ℕ) → hits p n i ≡ 0 → (j : ℕ) → i ≤ j → j < i + n → Has p j → ⊥
hits_none p zero i h j low high has = absurd (omega arith)
hits_none p (suc n) i h j low high has =
    let (first, others) =
      none_of_both (leb p.first_pin i && leb i p.last_pin) (hits p n (i + 1)) h in
    elim (Bool-cases (i == j)) [
      | inl e ↦
          let here : Has p i = subst (Has p) (sym ((==_iff i j).0 e)) has in
          absurd (cc ((in_block p i).0 here))
      | inr e ↦ hits_none p n (i + 1) others j (ground arith) (omega arith) has
    ]

none_hits : (p : PinBlock) (n i : ℕ) → ((j : ℕ) → i ≤ j → j < i + n → Has p j → ⊥) → hits p n i ≡ 0
none_hits p zero i h = refl
none_hits p (suc n) i h = elim (Bool-cases (leb p.first_pin i && leb i p.last_pin)) [
  | inl e ↦ absurd (h i (omega arith) (omega arith) ((in_block p i).1 e))
  | inr e ↦
      let others = none_hits p n (i + 1) (λ j low high. h j (omega arith) (omega arith)) in
      rw (e, others) (omega arith)
]

two_Apart : (p q : PinBlock) → (collisions_of_two p q ≡ 0) ↔ Apart p q
two_Apart p q = (
  λ h i same in_p in_q.
      (let test = (==_iff p.port q.port).1 same in
        hits_none q (p.last_pin + 1 - p.first_pin) p.first_pin (rw test at h) i in_p.0
          (let (low, high) = in_p in omega arith) in_q),
  λ apart. elim (Bool-cases (p.port == q.port)) [
    | inl e ↦ rw e (
        none_hits q (p.last_pin + 1 - p.first_pin) p.first_pin
          (λ j low high has. apart j ((==_iff p.port q.port).0 e) (low, omega arith) has))
    | inr e ↦ rw e refl
  ],
)

with_Apart : (p : PinBlock) (qs : List PinBlock) → (collisions_with p qs ≡ 0) ↔ All (Apart p) qs
with_Apart p [] = (λ h. tt, λ h. refl)
with_Apart p (q ∷ qs) =
    let (to, from) = with_Apart p qs in
    let (to_two, from_two) = two_Apart p q in
    (
      λ h. (to_two (omega arith), to (omega arith)),
      λ h. (let e = from_two h.0 in let e' = from h.1 in omega arith),
    )

-- The check counts no collision exactly if no two pin blocks have a pin of the same port in common.
pub collisions-Disjoint : (ps : List PinBlock) → (collisions ps ≡ 0) ↔ Disjoint ps
collisions-Disjoint [] = (λ h. tt, λ h. refl)
collisions-Disjoint (p ∷ ps) =
    let (to, from) = collisions-Disjoint ps in
    let (to_with, from_with) = with_Apart p ps in
    (
      λ h. (to_with (omega arith), to (omega arith)),
      λ h. (let e = from_with h.0 in let e' = from h.1 in omega arith),
    )
