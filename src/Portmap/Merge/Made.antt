-- ===== src/Portmap/Merge/Made.antt =====
-- What the parser lets through, the generator can write.
use mathlib.Core.Path.{subst}
use avr_ha_lib.Prelude.{
  ℕ, ◌≤◌, ◌≡◌, refl, sym, ◌∙◌, Bool, true, false, ◌&&◌, Option, some, List, [], ◌∷◌, ◌==◌,
  Bool-cases, inl, inr, All, ==_iff, map,
}
use avr_ha_lib.Portmap.Text.{Text, to_lower, text_eq}
use avr_ha_lib.Portmap.Uc.{
  Controller, PortToMem, has_port, get_target_controller, atmega32, atmega128, atmega1281,
  atmega128rfa1, at90can128,
}
use avr_ha_lib.Portmap.Uc.Ports.{select-All}
use avr_ha_lib.Portmap.Description.{PinBlock, Portmap}
use avr_ha_lib.Portmap.Layout.{Member, generate_pin_block, generate_pin_blocks}
use avr_ha_lib.Portmap.Layout.Fields.{generate_pin_block-places}
use avr_ha_lib.Portmap.Parser.Blocks.{controller_for}
use avr_ha_lib.Portmap.Parser.Pins.{PinOf}
use avr_ha_lib.Portmap.Parser.Portmaps.Whole.{PortmapOk}

abbrev lower_rows : List PortToMem → Bool
lower_rows [] = true
lower_rows (r ∷ rs) = (to_lower r.port_char == r.port_char) && lower_rows rs

both : {a b : Bool} → a && b ≡ true → (a ≡ true) × (b ≡ true)
both {a = true} h = (refl, h)
both {a = false} h = absurd (cc)

lower-port :
    (c : ℕ) (rs : List PortToMem) → lower_rows rs ≡ true → has_port c rs ≡ true → to_lower c ≡ c
lower-port c [] h has = absurd (cc)
lower-port c (r ∷ rs) h has = elim (Bool-cases (c == r.port_char)) [
  | inl e ↦
      subst (λ d. to_lower d ≡ d) (sym ((==_iff c r.port_char).0 e))
        ((==_iff (to_lower r.port_char) r.port_char).0 (both h).0)
  | inr e ↦ lower-port c rs (both h).1 (rw e at has)
]

-- The tables have lower case port characters.
port_lower :
    (s : Text) (k : Controller) (c : ℕ)
    → get_target_controller s ≡ some k
    → has_port c k.ports ≡ true
    → to_lower c ≡ c
unfolding get_target_controller
port_lower s k c e has =
    let name = map to_lower s in
    lower-port c k.ports
      (select-All (λ k. lower_rows k.ports ≡ true)
        ((text_eq name at90can128.name, at90can128)
          ∷ (text_eq name atmega32.name, atmega32)
          ∷ (text_eq name atmega128.name, atmega128)
          ∷ (text_eq name atmega1281.name, atmega1281)
          ∷ (text_eq name atmega128rfa1.name, atmega128rfa1)
          ∷ [])
        k (refl, (refl, (refl, (refl, (refl, tt))))) e)
      has

block_made :
    (s : Text) (k : Controller) (p : PinBlock)
    → get_target_controller s ≡ some k
    → PinOf k p
    → p.first_pin ≤ p.last_pin
    → (ms : List Member) × (generate_pin_block (some k) p ≡ some ms)
block_made s k p known ((d, has, lower), (first, last, range)) order =
    let same : p.port ≡ d = lower ∙ port_lower s k d known has in
    let has' : has_port p.port k.ports ≡ true =
      subst (λ c. has_port c k.ports ≡ true) (sym same) has in
    let (a, e, o, ms, at, to, on, made, put) =
      generate_pin_block-places s k p known has' order last in
    (ms, made)

blocks_made :
    (s : Text) (k : Controller) (ps : List PinBlock)
    → get_target_controller s ≡ some k
    → All (PinOf k) ps
    → All (λ (p : PinBlock). p.first_pin ≤ p.last_pin) ps
    → (mss : List (List Member)) × (generate_pin_blocks (some k) ps ≡ some mss)
blocks_made s k [] known all order = ([], refl)
blocks_made s k (p ∷ ps) known all order =
    let (ms, made) = block_made s k p known all.0 order.0 in
    let (mss, rest) = blocks_made s k ps known all.1 order.1 in (ms ∷ mss, rw (made, rest) refl)

-- A port map as the parser gives it without an error, for a supported controller, its own or the command
-- line's: if in no pin block the last pin is before the first, the generator finds an address for every
-- register of its pin blocks, and no assertion fails on the way to their structures.
pub generate_pin_blocks-made :
    (s : Text) (k : Controller) (j : Option Controller) (pm : Portmap)
    → get_target_controller s ≡ some k
    → controller_for pm.target_controller j ≡ some k
    → PortmapOk j pm
    → All (λ (p : PinBlock). p.first_pin ≤ p.last_pin) pm.pin_blocks
    → (mss : List (List Member)) × (generate_pin_blocks (some k) pm.pin_blocks ≡ some mss)
generate_pin_blocks-made s k j pm known for_k ok order =
    let (c, e, all) = ok.0 in
    let same : c ≡ k = cc in
    blocks_made s k pm.pin_blocks known (subst (λ i. All (PinOf i) pm.pin_blocks) same all) order
