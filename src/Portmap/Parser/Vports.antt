-- ===== src/Portmap/Parser/Vports.antt =====
-- What a virtual port is when no error has been found.
use mathlib.Core.Path.{subst}
use mathlib.Core.List.{Mem, mem-cons_self, mem-cons_of_mem}
use avr_ha_lib.Prelude.{
  ℕ, zero, suc, ◌<◌, ◌≡◌, refl, sym, Bool, true, false, not, ◌&&◌, Option, none, some, List, [],
  ◌∷◌, arith, if_both, Bool-cases, inl, inr, All, All-append, Option-cases,
}
use avr_ha_lib.Portmap.Text.{Text, text_eq}
use avr_ha_lib.Portmap.Uc.{Controller}
use avr_ha_lib.Portmap.Description.{PinBlock, VirtualPort}
use avr_ha_lib.Portmap.Tokenizer.{Token, left_brace, right_brace, semicolon, comma, identifier}
use avr_ha_lib.Portmap.Parser.{Parse, is, find_pin_block, get_obj_pointer_by_identifier}
use avr_ha_lib.Portmap.Parser.Blocks.{
  skip_to_semicolon, VportToken, list_closed, vport_closed, pin_named, unexpected, vport_token,
  add_found, add_pin_block, parse_comma, vport_loop, parse_virtual_port,
}
use avr_ha_lib.Portmap.Parser.Outcomes.{
  Sound, ends_then, ends_weaken, ends_return, ends_error, ends_check_token, ends_token, ends_if,
  ends_unique,
}
use avr_ha_lib.Portmap.Parser.Pins.{ends_put_back_and}

-- The pins of a virtual port are pins of its port map.
abbrev pub PinsIn : List PinBlock → VirtualPort → Type 0
PinsIn known vp = All (λ (p : PinBlock). Mem p known) vp.pin_blocks

pub ends_skip :
    {k : Option Controller} (f n : ℕ) (t : Token)
    → n < f
    → Sound k n n (λ u. Unit) (skip_to_semicolon f t)
unfolding skip_to_semicolon
ends_skip zero n t h = absurd (omega arith)
ends_skip (suc f) n t h =
    ends_if (is t semicolon) (λ e. ends_return (omega arith) tt)
      (λ e.
        ends_token
          (λ m e' t'. ends_weaken (omega arith) (λ a q. q) (ends_skip f m t' (omega arith))))

-- What has been found is in the list.
abbrev Found : List PinBlock → Option PinBlock → Type 0
Found ps none = Unit
Found ps (some p) = Mem p ps

found-Mem :
    (id : Text) (ps : List PinBlock) (p : PinBlock) → find_pin_block id ps ≡ some p → Mem p ps
found-Mem id [] p h = absurd (cc)
found-Mem id (q ∷ qs) p h = elim (Bool-cases (text_eq q.identifier id)) [
  | inl e ↦ let same : q ≡ p = cc (rw e at h) in subst (λ x. Mem x (q ∷ qs)) same mem-cons_self
  | inr e ↦ mem-cons_of_mem q (found-Mem id qs p (rw e at h))
]

ends_obj :
    {k : Option Controller} {n : ℕ} (ps : List PinBlock) (id : Text)
    → Sound k n n (Found ps) (get_obj_pointer_by_identifier ps id)
unfolding get_obj_pointer_by_identifier
ends_obj ps id = elim (Option-cases (find_pin_block id ps)) [
  | inl e ↦
      rw (e, get_obj_pointer_by_identifier)
        (ends_then (ends_error {Q = λ u. Unit} false) (λ u. ends_return (omega arith) (λ h. tt)))
  | inr (p, e) ↦
      rw (e, get_obj_pointer_by_identifier) (ends_return (omega arith) (found-Mem id ps p e))
]

ends_add_found :
    {k : Option Controller} {n : ℕ} (known : List PinBlock) (id : Text) (vp : VirtualPort)
    (found : Option PinBlock)
    → Sound k n n
        (λ vp'. Found known found → PinsIn known vp → PinsIn known vp')
        (add_found id vp found)
ends_add_found known id vp none = ends_return (omega arith) (λ f h. h)
ends_add_found known id vp (some p) = ends_then (ends_unique _ id) (λ ok.
    ends_return (omega arith) (λ c f h.
      if_both (PinsIn known) ok
        (All-append (λ (p : PinBlock). Mem p known) vp.pin_blocks (p ∷ []) h (f, tt)) h))

ends_add :
    {k : Option Controller} {n : ℕ} (known : List PinBlock) (id : Text) (vp : VirtualPort)
    → Sound k n n (λ vp'. PinsIn known vp → PinsIn known vp') (add_pin_block known id vp)
unfolding add_pin_block
ends_add known id vp = ends_then (ends_obj known id) (ends_add_found known id vp)

ends_comma :
    {k : Option Controller} {n : ℕ} (vp : VirtualPort)
    → Sound k n n (λ vp'. vp' ≡ vp) (parse_comma vp)
ends_comma vp = ends_token (λ m e t.
    ends_if (is t right_brace) (λ h. ends_put_back_and t vp (omega arith) refl)
      (λ h. ends_then (ends_check_token t comma) (λ ok.
        ends_if (not ok && is t identifier) (λ h'. ends_put_back_and t vp (omega arith) (λ c. refl))
          (λ h'. ends_return (omega arith) (λ c. refl)))))

-- The branches on a token of the list.
ends_branch :
    {A : Type 0} {k : Option Controller} {n n' : ℕ} {Q : A → Type 0} (x : VportToken)
    {a b c d : Parse A}
    → Sound k n n' Q a
    → Sound k n n' Q b
    → Sound k n n' Q c
    → Sound k n n' Q d
    → Sound k n n' Q
        (elim x [ list_closed ↦ a | vport_closed ↦ b | pin_named ↦ c | unexpected ↦ d ])
ends_branch list_closed p q r s = p
ends_branch vport_closed p q r s = q
ends_branch pin_named p q r s = r
ends_branch unexpected p q r s = s

ends_vport_loop :
    {k : Option Controller} (f n : ℕ) (known : List PinBlock) (vport_end : Bool) (vp : VirtualPort)
    → n < f
    → Sound k n n (λ vp'. PinsIn known vp → PinsIn known vp') (vport_loop f known vport_end vp)
unfolding vport_loop
ends_vport_loop zero n known vport_end vp h = absurd (omega arith)
ends_vport_loop (suc f) n known vport_end vp h = ends_token (λ m e t.
    ends_branch (vport_token vport_end t)
      (ends_weaken (omega arith) (λ a q. q) (ends_vport_loop f m known true vp (omega arith)))
      (ends_return (omega arith) (λ q. q))
      (ends_then (ends_add known t.content vp) (λ vp'. ends_then (ends_comma vp') (λ vp''.
        ends_weaken (omega arith)
          (λ a q same more all. q (subst (PinsIn known) (sym same) (more all)))
          (ends_vport_loop f m known vport_end vp'' (omega arith)))))
      (ends_then (ends_error {Q = λ u. Unit} false) (λ u.
        ends_if vport_end (λ h'. ends_put_back_and t vp (omega arith) (λ u q. q))
          (λ h'. ends_then (ends_skip f m t (omega arith)) (λ u'.
            ends_weaken (omega arith) (λ a q u u' all. q all)
              (ends_vport_loop f m known vport_end vp (omega arith)))))))

pub ends_virtual_port :
    {k : Option Controller} (f n : ℕ) (known : List PinBlock) (vp : VirtualPort)
    → n < f
    → Sound k n n (λ vp'. PinsIn known vp → PinsIn known vp') (parse_virtual_port f known vp)
unfolding parse_virtual_port
ends_virtual_port f n known vp h = ends_token (λ m e t.
    ends_then (ends_check_token t left_brace) (λ ok.
      ends_weaken (omega arith) (λ a q c. q) (ends_vport_loop f m known false vp (omega arith))))
