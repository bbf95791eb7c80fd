-- ===== src/Portmap/Parser/Portmaps/Entries.antt =====
-- What a port map is when no error has been found.
use mathlib.Core.List.{Mem, mem-append_left}
use avr_ha_lib.Prelude.{
  ℕ, suc, ◌<◌, ◌≡◌, refl, Bool, true, false, Option, List, [], ◌∷◌, ◌++◌, arith, All, All-append,
  All-weaken,
}
use avr_ha_lib.Portmap.Uc.{Controller}
use avr_ha_lib.Portmap.Description.{PinBlock, VirtualPort, Portmap}
use avr_ha_lib.Portmap.Tokenizer.{Token, right_brace, colon, semicolon, equals, identifier}
use avr_ha_lib.Portmap.Parser.{is}
use avr_ha_lib.Portmap.Parser.Blocks.{controller_for}
use avr_ha_lib.Portmap.Parser.Outcomes.{
  Sound, ends_then, ends_return, ends_put_back, ends_check_token, ends_token, ends_if, ends_unique,
}
use avr_ha_lib.Portmap.Parser.Pins.{PinOfSome, ends_put_back_and, ends_property, ends_pin_block}
use avr_ha_lib.Portmap.Parser.Vports.{PinsIn, ends_virtual_port}
use avr_ha_lib.Portmap.Parser.Portmaps.{
  property_names, pin_names, vport_names, check_name, get_cur_line, parse_vport_entry, put_back_if,
  parse_pin_entry, parse_property_entry,
}

-- Every pin block is one of the controller, and the virtual ports are made of them.
abbrev pub Body : Option Controller → Portmap → Type 0
Body j pm =
    All (PinOfSome (controller_for pm.target_controller j)) pm.pin_blocks
    × All (PinsIn pm.pin_blocks) pm.vports

-- What an entry does to a port map.
abbrev pub Kept : Option Controller → Portmap → Portmap → Type 0
Kept j pm pm' =
    (pm'.sequence_number ≡ pm.sequence_number)
    × (pm'.target_controller ≡ pm.target_controller)
    × (Body j pm → Body j pm')

ends_name :
    {j : Option Controller} {n : ℕ} (pm : Portmap) (t : Token)
    → Sound j n n (λ u. is t identifier ≡ true) (check_name pm t)
unfolding check_name
ends_name pm t = ends_then (ends_check_token t identifier) (λ ok.
    ends_if ok
      (λ h. ends_then (ends_unique (property_names pm) t.content) (λ a.
        ends_then (ends_unique (pin_names pm) t.content) (λ b.
          ends_then (ends_unique (vport_names pm) t.content)
            (λ c. ends_return (omega arith) (λ x y z e. e.1)))))
      (λ h. ends_return (omega arith) (λ e. e.1)))

pub ends_line : {j : Option Controller} {n : ℕ} → Sound j n n (λ i. Unit) get_cur_line
ends_line = record { ended = λ s rest same. (rest, same, λ e. (e, tt)) }

ends_put_back_if :
    {j : Option Controller} {n : ℕ} (b : Bool) (t : Token)
    → Sound j n (suc n) (λ u. Unit) (put_back_if b t)
ends_put_back_if true t = ends_put_back t
ends_put_back_if false t = ends_return (omega arith) tt

pub ends_vport_entry :
    {j : Option Controller} (f n : ℕ) (pm : Portmap)
    → n < f
    → Sound j n n (Kept j pm) (parse_vport_entry f pm)
unfolding parse_vport_entry
ends_vport_entry {j} f n pm h = ends_token (λ m e t. ends_then (ends_name pm t) (λ u.
    ends_if (is t right_brace)
      (λ h'. ends_put_back_and t pm (omega arith) (λ c. (refl, refl, λ b. b)))
      (λ h'.
        ends_if (is t semicolon) (λ h''. ends_return (omega arith) (λ c. (refl, refl, λ b. b)))
          (λ h''. ends_then ends_line (λ i.
            ends_then (ends_virtual_port f m pm.pin_blocks _ (omega arith)) (λ vp'.
              ends_return (omega arith) (λ p q c. (
                refl,
                refl,
                λ b. (b.0, All-append (PinsIn pm.pin_blocks) pm.vports (vp' ∷ []) b.1 (p tt, tt)),
              ))))))))

more_pins :
    (ps qs : List PinBlock) (vps : List VirtualPort)
    → All (PinsIn ps) vps
    → All (PinsIn (ps ++ qs)) vps
more_pins ps qs vps h =
    All-weaken (PinsIn ps) (PinsIn (ps ++ qs))
      (λ vp g.
        All-weaken (λ (p : PinBlock). Mem p ps) (λ (p : PinBlock). Mem p (ps ++ qs))
          (λ p i. mem-append_left qs i) vp.pin_blocks g)
      vps h

pub ends_pin_entry :
    {j : Option Controller} (n : ℕ) (fresh : PinBlock) (several : Bool) (pm : Portmap)
    → Sound j n n (Kept j pm) (parse_pin_entry fresh several pm)
unfolding parse_pin_entry
ends_pin_entry {j} n fresh several pm = ends_token (λ m e t. ends_then (ends_name pm t) (λ u.
    ends_if (is t right_brace)
      (λ h'. ends_put_back_and t pm (omega arith) (λ c. (refl, refl, λ b. b)))
      (λ h'.
        ends_if (is t semicolon) (λ h''. ends_return (omega arith) (λ c. (refl, refl, λ b. b)))
          (λ h''. ends_then (ends_put_back_if (is t colon) t) (λ u'. ends_then ends_line (λ i.
            ends_then (ends_pin_block several pm.target_controller _) (λ p'.
              ends_return (omega arith) (λ p q c d. (
                refl,
                refl,
                λ b. (
                  All-append (PinOfSome (controller_for pm.target_controller j)) pm.pin_blocks
                      (p' ∷ []) b.0 (p, tt),
                  more_pins pm.pin_blocks (p' ∷ []) pm.vports b.1,
                ),
              )))))))))

pub ends_property_entry :
    {j : Option Controller} (n : ℕ) (pm : Portmap)
    → Sound j n n (Kept j pm) (parse_property_entry pm)
unfolding parse_property_entry
ends_property_entry {j} n pm = ends_token (λ m e t. ends_then (ends_name pm t) (λ u.
    ends_if (is t right_brace)
      (λ h'. ends_put_back_and t pm (omega arith) (λ c. (refl, refl, λ b. b)))
      (λ h'.
        ends_if (is t semicolon) (λ h''. ends_return (omega arith) (λ c. (refl, refl, λ b. b)))
          (λ h''. ends_then (ends_put_back_if (is t equals) t) (λ u'. ends_then ends_line (λ i.
            ends_then (ends_property _)
              (λ p'. ends_return (omega arith) (λ p q c d. (refl, refl, λ b. b)))))))))
