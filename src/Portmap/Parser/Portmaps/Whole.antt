-- ===== src/Portmap/Parser/Portmaps/Whole.antt =====
-- A whole port map, when no error has been found.
use mathlib.Core.Path.{subst}
use avr_ha_lib.Prelude.{
  ℕ, zero, suc, ◌<◌, ◌≡◌, refl, ap, ◌∙◌, Bool, true, false, Option, none, some, List, [], ◌∷◌,
  arith, All, if_cases,
}
use avr_ha_lib.Portmap.Uc.{Controller}
use avr_ha_lib.Portmap.Description.{PinBlock, Portmap}
use avr_ha_lib.Portmap.Tokenizer.{left_brace, for_keyword}
use avr_ha_lib.Portmap.Parser.{Parse, is, check_for_pin_collisions}
use avr_ha_lib.Portmap.Parser.Blocks.{controller_for}
use avr_ha_lib.Portmap.Parser.Outcomes.{
  Sound, Ended, fatal_exits, ends_then, ends_weaken, ends_return, ends_error, ends_error_if,
  ends_check_token, ends_token, ends_if,
}
use avr_ha_lib.Portmap.Parser.Pins.{PinOf, PinOfSome, ends_put_back_and}
use avr_ha_lib.Portmap.Parser.Vports.{PinsIn, ends_skip}
use avr_ha_lib.Portmap.Parser.Portmaps.{
  BodyToken, body_closed, portmap_closed, vport_entry, pin_entry, property_entry, unexpected,
  body_token, portmap_loop, is_none, parse_head, need_controller, parse_portmap,
}
use avr_ha_lib.Portmap.Parser.Portmaps.Collisions.{Disjoint, collisions-Disjoint}
use avr_ha_lib.Portmap.Parser.Portmaps.Entries.{
  Kept, ends_vport_entry, ends_pin_entry, ends_property_entry,
}

-- The branches on a token of the body.
ends_branch :
    {A : Type 0} {k : Option Controller} {n n' : ℕ} {Q : A → Type 0} (x : BodyToken)
    {a b c : Parse A} {d : Bool → Parse A} {e f : Parse A}
    → Sound k n n' Q a
    → Sound k n n' Q b
    → Sound k n n' Q c
    → ((several : Bool) → Sound k n n' Q (d several))
    → Sound k n n' Q e
    → Sound k n n' Q f
    → Sound k n n' Q (elim x [
      | body_closed ↦ a
      | portmap_closed ↦ b
      | vport_entry ↦ c
      | pin_entry several ↦ d several
      | property_entry ↦ e
      | unexpected ↦ f
    ])
ends_branch body_closed p q r s t u = p
ends_branch portmap_closed p q r s t u = q
ends_branch vport_entry p q r s t u = r
ends_branch (pin_entry several) p q r s t u = s several
ends_branch property_entry p q r s t u = t
ends_branch unexpected p q r s t u = u

Kept-trans : (j : Option Controller) (a b c : Portmap) → Kept j b c → Kept j a b → Kept j a c
Kept-trans j a b c (same, k, f) (same', k', f') = (same ∙ same', k ∙ k', λ h. f (f' h))

ends_portmap_loop :
    {j : Option Controller} (f n : ℕ) (fresh : PinBlock) (portmap_end : Bool) (pm : Portmap)
    → n < f
    → Sound j n n (Kept j pm) (portmap_loop f fresh portmap_end pm)
unfolding portmap_loop
ends_portmap_loop zero n fresh portmap_end pm h = absurd (omega arith)
ends_portmap_loop {j} (suc f) n fresh portmap_end pm h = ends_token (λ m e t.
    let same : Kept j pm pm = (refl, refl, λ b. b) in
    let on =
      λ (end : Bool) (pm' : Portmap). ends_portmap_loop {j = j} f m fresh end pm' (omega arith) in
    let next = λ (pm' : Portmap).
      ends_weaken {n'' = n} (omega arith) (λ a q k. Kept-trans j pm pm' a q k)
        (on portmap_end pm') in
    ends_branch (body_token portmap_end t) (ends_weaken (omega arith) (λ a q. q) (on true pm))
      (ends_return (omega arith) same) (ends_then (ends_vport_entry f m pm (omega arith)) next)
      (λ several. ends_then (ends_pin_entry m fresh several pm) next)
      (ends_then (ends_property_entry m pm) next)
      (ends_then (ends_error {Q = λ u. Unit} false) (λ u.
        ends_if portmap_end (λ h'. ends_put_back_and t pm (omega arith) (λ u. same))
          (λ h'.
            ends_then (ends_skip f m t (omega arith))
              (λ u'. ends_weaken (omega arith) (λ a q u u'. q) (on portmap_end pm))))))

-- The head gives the controller, and the rest stays.
abbrev Headed : Portmap → Portmap → Type 0
Headed pm pm' =
    (pm'.sequence_number ≡ pm.sequence_number)
    × (pm'.pin_blocks ≡ pm.pin_blocks)
    × (pm'.vports ≡ pm.vports)

ends_head : {j : Option Controller} {n : ℕ} (pm : Portmap) → Sound j n n (Headed pm) (parse_head pm)
unfolding parse_head
ends_head pm = ends_token (λ m e t.
    ends_if (is t for_keyword)
      (λ h. ends_token (λ m' e' t'. ends_then (ends_error_if _) (λ u. ends_token (λ m'' e'' t''.
        ends_then (ends_check_token t'' left_brace)
          (λ ok. ends_return (omega arith) (λ a b. (refl, refl, refl)))))))
      (λ h.
        ends_then (ends_check_token t left_brace)
          (λ ok. ends_return (omega arith) (λ a. (refl, refl, refl)))))

is_some : {A : Type 0} (o : Option A) → is_none o ≡ false → (a : A) × (o ≡ some a)
is_some none h = absurd (cc)
is_some (some a) h = (a, refl)

ends_need_controller :
    {j : Option Controller} {n : ℕ} (k : Option Controller)
    → Sound j n n (λ u. (c : Controller) × (controller_for k j ≡ some c)) (need_controller k)
unfolding need_controller
ends_need_controller {j} {n} k = record {
  ended = λ s rest same.
      if_cases (Ended j s.parse_error_num n (λ u. (c : Controller) × (controller_for k j ≡ some c)))
        (is_none (controller_for k s.target_controller)) (λ h. rw (fatal_exits s) tt)
        (λ h. (
          rest,
          same,
          λ e. (
            e,
            is_some (controller_for k j) (subst (λ i. is_none (controller_for k i) ≡ false) same h),
          ),
        ));
}

ends_collisions :
    {j : Option Controller} {n : ℕ} (ps : List PinBlock)
    → Sound j n n (λ u. Disjoint ps) (check_for_pin_collisions ps)
unfolding check_for_pin_collisions
ends_collisions ps = record {
  ended = λ s rest same. (rest, same, λ e. (omega arith, (collisions-Disjoint ps).0 (omega arith)));
}

-- A port map that can be generated: it has a controller, its own or the command line's; every pin block
-- is one of it, no two of them share a pin, and the virtual ports are made of them.
abbrev pub PortmapOk : Option Controller → Portmap → Type 0
PortmapOk j pm =
    ((c : Controller) × (controller_for pm.target_controller j ≡ some c)
      × All (PinOf c) pm.pin_blocks)
    × Disjoint pm.pin_blocks
    × All (PinsIn pm.pin_blocks) pm.vports

-- The controller is known, so each pin block is one of it.
of_controller :
    (k : Option Controller) (c : Controller) (ps : List PinBlock)
    → k ≡ some c
    → All (PinOfSome k) ps
    → All (PinOf c) ps
of_controller k c ps e h = subst (λ (i : Option Controller). All (PinOfSome i) ps) e h

All-none : {A : Type 0} (P : A → Type 0) (xs : List A) → xs ≡ [] → All P xs
All-none P [] e = tt
All-none P (x ∷ xs) e = absurd (cc)

pub ends_portmap :
    {j : Option Controller} (f n : ℕ) (fresh : PinBlock) (pm : Portmap)
    → n < f
    → pm.pin_blocks ≡ []
    → pm.vports ≡ []
    → Sound j n n
        (λ pm'. (pm'.sequence_number ≡ pm.sequence_number) × PortmapOk j pm')
        (parse_portmap f fresh pm)
unfolding parse_portmap
ends_portmap {j} f n fresh pm h no_pins no_vports = ends_then (ends_head pm) (λ pm'.
    ends_then (ends_need_controller pm'.target_controller) (λ u.
      ends_then (ends_portmap_loop f n fresh false pm' h) (λ pm''.
        ends_then (ends_collisions pm''.pin_blocks) (λ u'.
          ends_return (omega arith) (λ apart kept known head.
            let (seq, pins, vports) = head in
            let (seq', k, bodies) = kept in
            let (c, e) = known in
            let body = bodies (
              All-none _ pm'.pin_blocks (pins ∙ no_pins),
              All-none _ pm'.vports (vports ∙ no_vports),
            ) in
            let e' : controller_for pm''.target_controller j ≡ some c =
              ap (λ i. controller_for i j) k ∙ e in
            (
              seq' ∙ seq,
              (
                (
                  c,
                  e',
                  of_controller (controller_for pm''.target_controller j) c pm''.pin_blocks e'
                      body.0,
                ),
                apart,
                body.1,
              ),
            ))))))
