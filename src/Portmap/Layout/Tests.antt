-- ===== src/Portmap/Layout/Tests.antt =====
-- Structures and virtual ports at concrete pins.
use avr_ha_lib.Prelude.{ℕ, ◌≤◌, ◌≡◌, refl, none, some, List, [], ◌∷◌, arith, map}
use avr_ha_lib.Prelude.Masks.{ones, shl}
use avr_ha_lib.Portmap.Text.{Text, codes}
use avr_ha_lib.Portmap.Uc.{pin, ddr, port, get_target_controller, get_address, atmega32}
use avr_ha_lib.Portmap.Description.{PinBlock}
use avr_ha_lib.Portmap.Layout.{
  MapEntry, Member, Term, sort, generate_pin_block, get_bit_mask, mask_zeros, mask_digits, terms,
}
use avr_ha_lib.Portmap.Layout.Fields.{places, place, sort-falling, generate_pin_block-places}
use avr_ha_lib.Portmap.Layout.Masks.{hex_value, get_bit_mask-ones}
use avr_ha_lib.Portmap.Layout.Vports.{
  getter, stored, slices, terms-stored, getter_bound, terms-past_end,
}

abbrev pins : ℕ → ℕ → ℕ → PinBlock
pins c first last = record {
  identifier = [];
  line = 1;
  port = c;
  first_pin = first;
  last_pin = last;
}

-- The controller that `-m ATmega32` names.
named : get_target_controller (codes "ATmega32") ≡ some atmega32
unfolding get_target_controller
named = refl

abbrev block : PinBlock
block = pins b'a' 2 5

generate_pin_block-places_example :
    (a : ℕ) × (d : ℕ) × (o : ℕ) × (ms : List Member) × (get_address b'a' pin (some atmega32)
      ≡ some a)
    × (get_address b'a' ddr (some atmega32) ≡ some d)
    × (get_address b'a' port (some atmega32) ≡ some o)
    × (generate_pin_block (some atmega32) block ≡ some ms)
    × (places 0 ms
        ≡ map place (
            record { identifier = codes "pin"; ptype = pin; addr = a; pb = block }
            ∷ record { identifier = codes "ddr"; ptype = ddr; addr = d; pb = block }
            ∷ record { identifier = codes "port"; ptype = port; addr = o; pb = block }
            ∷ []))
generate_pin_block-places_example =
    generate_pin_block-places (codes "ATmega32") atmega32 block named refl (omega arith)
      (omega arith)

abbrev at : ℕ → MapEntry
at n = record { identifier = []; ptype = pin; addr = n; pb = block }

unsorted : sort (at 3 ∷ at 2 ∷ at 1 ∷ []) ≡ at 1 ∷ at 3 ∷ at 2 ∷ []
unsorted = sort-falling (at 3) (at 2) (at 1) (omega arith) (omega arith)

ones_mask : (m : Text) × (get_bit_mask 6 5 ≡ some m) × (hex_value m ≡ shl 6 (ones 5))
ones_mask = get_bit_mask-ones 6 5 (omega arith) (omega arith) (omega arith)

mask_written : get_bit_mask 6 5 ≡ some (codes "0x7c0")
unfolding get_bit_mask mask_zeros mask_digits
mask_written = refl

abbrev three_blocks : List PinBlock
three_blocks = pins b'a' 2 5 ∷ pins b'b' 7 7 ∷ pins b'c' 0 7 ∷ []

terms-stored_example :
    (ts : List Term) × (terms 13 0 three_blocks ≡ some ts)
    × (map (stored 5000) ts ≡ slices 5000 0 three_blocks)
terms-stored_example =
    terms-stored 5000 three_blocks
      ((omega arith, omega arith), ((omega arith, omega arith), ((omega arith, omega arith), tt)))
      (omega arith)

abbrev shown : List Term
shown =
    record { block = pins b'a' 2 5; get_shift = none; mask = codes "0xf"; set_shift = none }
    ∷ record { block = pins b'b' 7 7; get_shift = some 4; mask = codes "0x10"; set_shift = none }
    ∷ []

shown_made : terms 5 0 (pins b'a' 2 5 ∷ pins b'b' 7 7 ∷ []) ≡ some shown
unfolding terms get_bit_mask mask_zeros mask_digits
shown_made = refl

joined_by_or : getter shown (9 ∷ 1 ∷ []) ≤ 1
joined_by_or = getter_bound 5 (pins b'a' 2 5) (pins b'b' 7 7) [] shown (9 ∷ 1 ∷ []) shown_made

abbrev five_ports : List PinBlock
five_ports = pins b'a' 0 7 ∷ pins b'b' 0 7 ∷ pins b'c' 0 7 ∷ pins b'd' 0 7 ∷ pins b'e' 0 7 ∷ []

past_the_end : terms 32 0 five_ports ≡ none
past_the_end = terms-past_end 0 five_ports (omega arith)
