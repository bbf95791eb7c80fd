-- ===== src/Portmap/Merge/Order.antt =====
-- The parts come out in the order of their sequence numbers.
use avr_ha_lib.Prelude.{
  ℕ, zero, suc, ◌+◌, ◌≤◌, ◌<◌, ◌≡◌, refl, ap, List, [], ◌∷◌, arith, ltb, length, map, Bool-cases,
  inl, inr, ltb→lt, Option, some, All, sym,
}
use mathlib.Core.Path.{subst}
use avr_ha_lib.Portmap.Uc.{Controller}
use avr_ha_lib.Portmap.Description.{Portmap, CopySection}
use avr_ha_lib.Portmap.Merge.{
  Part, portmap, copied, portmaps, copies, merge, generate, Output, structure, text, PortmapCode,
  generate_portmap, write, write_all,
}

abbrev pub number : Part → ℕ
number (portmap p) = p.sequence_number
number (copied c) = c.sequence_number

-- Numbers in order, from `n` on.
abbrev pub Ordered : ℕ → List ℕ → Type 0
Ordered n [] = Unit
Ordered n (m ∷ ms) = (n ≤ m) × Ordered m ms

-- The port maps of a list of parts, and the copied text, each in order.
abbrev pub portmaps_of : List Part → List Portmap
portmaps_of [] = []
portmaps_of (portmap p ∷ xs) = p ∷ portmaps_of xs
portmaps_of (copied c ∷ xs) = portmaps_of xs

abbrev pub copies_of : List Part → List CopySection
copies_of [] = []
copies_of (portmap p ∷ xs) = copies_of xs
copies_of (copied c ∷ xs) = c ∷ copies_of xs

abbrev pub numbers : List Part → List ℕ
numbers xs = map number xs

copies-Merged :
    (n : ℕ) (cs : List CopySection)
    → Ordered n (numbers (copies cs))
    → Ordered n (numbers (copies cs))
      × (portmaps_of (copies cs) ≡ [])
      × (copies_of (copies cs) ≡ cs)
copies-Merged n [] h = (tt, refl, refl)
copies-Merged n (c ∷ cs) h =
    let (order, no_maps, same) = copies-Merged c.sequence_number cs h.1 in
    ((h.0, order), no_maps, ap (◌∷◌ c) same)

portmaps-Merged :
    (n : ℕ) (ps : List Portmap)
    → Ordered n (numbers (portmaps ps))
    → Ordered n (numbers (portmaps ps))
      × (portmaps_of (portmaps ps) ≡ ps)
      × (copies_of (portmaps ps) ≡ [])
portmaps-Merged n [] h = (tt, refl, refl)
portmaps-Merged n (p ∷ ps) h =
    let (order, same, no_copies) = portmaps-Merged p.sequence_number ps h.1 in
    ((h.0, order), ap (◌∷◌ p) same, no_copies)

-- The parts `xs` are the port maps and the copied text, in the order of their numbers.
abbrev pub Merged : ℕ → List Portmap → List CopySection → List Part → Type 0
Merged n ps cs xs = Ordered n (numbers xs) × (portmaps_of xs ≡ ps) × (copies_of xs ≡ cs)

merge-Merged :
    (f n : ℕ) (ps : List Portmap) (cs : List CopySection)
    → length ps + length cs < f
    → Ordered n (numbers (portmaps ps))
    → Ordered n (numbers (copies cs))
    → Merged n ps cs (merge f ps cs)
unfolding merge
merge-Merged zero n ps cs fuel hp hc = absurd (omega arith)
merge-Merged (suc f) n [] cs fuel hp hc = copies-Merged n cs hc
merge-Merged (suc f) n (p ∷ ps) [] fuel hp hc = portmaps-Merged n (p ∷ ps) hp
merge-Merged (suc f) n (p ∷ ps) (c ∷ cs) fuel hp hc =
    elim (Bool-cases (ltb p.sequence_number c.sequence_number)) [
      | inl e ↦
          let (order, maps, texts) =
            merge-Merged f p.sequence_number ps (c ∷ cs) (omega arith) hp.1
              (omega (arith, ltb→lt p.sequence_number c.sequence_number e), hc.1) in
          rw e ((hp.0, order), ap (◌∷◌ p) maps, texts)
      | inr e ↦
          let (order, maps, texts) =
            merge-Merged f c.sequence_number (p ∷ ps) cs (omega arith) (ground arith, hp.1) hc.1 in
          rw e ((hc.0, order), maps, ap (◌∷◌ c) texts)
    ]

-- The port map is written: no assertion fails, and no loop runs behind the end of a list.
abbrev pub IsWritten : Option Controller → Portmap → Type 0
IsWritten j pm = (code : PortmapCode) × (generate_portmap j pm ≡ some code)

-- The outputs are those of the parts, one for each.
abbrev pub Outputs : Option Controller → List Part → List Output → Type 0
Outputs j [] [] = Unit
Outputs j (p ∷ ps) (o ∷ os) = (write j p ≡ some o) × Outputs j ps os
Outputs j _ _ = ⊥

write_all-Outputs :
    (j : Option Controller) (xs : List Part)
    → All (IsWritten j) (portmaps_of xs)
    → (os : List Output) × (write_all j xs ≡ some os) × Outputs j xs os
unfolding write_all
write_all-Outputs j [] h = ([], refl, tt)
write_all-Outputs j (portmap p ∷ xs) h =
    let (code, made) = h.0 in
    let (os, all, outs) = write_all-Outputs j xs h.1 in
    (structure code ∷ os, rw (made, all) refl, (rw made refl, outs))
write_all-Outputs j (copied c ∷ xs) h =
    let (os, all, outs) = write_all-Outputs j xs h in
    (text c.content ∷ os, rw all refl, (refl, outs))

-- When the port maps and the pieces of copied text each have their sequence numbers in order, and each
-- port map can be written, the output is that of all of them and of nothing else, each list in its
-- own order, and the numbers in order.
pub generate-Merged :
    (j : Option Controller) (ps : List Portmap) (cs : List CopySection)
    → Ordered 0 (numbers (portmaps ps))
    → Ordered 0 (numbers (copies cs))
    → All (IsWritten j) ps
    → (xs : List Part) × (os : List Output) × Merged 0 ps cs xs
      × (generate j ps cs ≡ some os)
      × Outputs j xs os
unfolding generate
generate-Merged j ps cs hp hc h =
    let xs = merge (suc (length ps + length cs)) ps cs in
    let (order, maps, texts) =
      merge-Merged (suc (length ps + length cs)) 0 ps cs (omega arith) hp hc in
    let (os, all, outs) = write_all-Outputs j xs (subst (All (IsWritten j)) (sym maps) h) in
    (xs, os, (order, maps, texts), all, outs)
