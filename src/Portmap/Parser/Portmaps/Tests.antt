-- ===== src/Portmap/Parser/Portmaps/Tests.antt =====
-- Files that the parser reads, and the theorems on them.
use avr_ha_lib.Prelude.{
  ℕ, ◌<◌, ◌≡◌, ◌≢◌, refl, Bool, ◌&&◌, true, false, some, none, Option, List, [], ◌∷◌, All, arith,
  ◌==◌, ==_iff,
}
use avr_ha_lib.Prelude.Int.{◌+ℤ◌}
use avr_ha_lib.Portmap.Text.{Text, codes}
use avr_ha_lib.Portmap.Uc.{atmega32, get_address, get_target_controller, check_port, check_pin}
use avr_ha_lib.Portmap.Description.{PinBlock, Portmap}
use avr_ha_lib.Portmap.Merge.{Part, Output, PortmapCode, generate_portmap, generate}
use avr_ha_lib.Portmap.Layout.{
  generate_virtual_port, terms, get_bit_mask, mask_zeros, mask_digits, get_data_type,
  generate_pin_block, generate_map_entries, members, padding, sort,
}
use avr_ha_lib.Portmap.Merge.Order.{Merged, IsWritten, Outputs}
use avr_ha_lib.Portmap.Tokenizer.{
  new_tokenizer, outside_step, outside, skip, lex_number, lex_word, lex, inside_token,
  outside_token, get_token, put_back_token,
}
use avr_ha_lib.Portmap.Parser.{
  Parser, Run, done, exited, out_of_fuel, is_keyword, parse_error, get_needed_token, put_back,
  check_token, check_identifier_unique, get_obj_pointer_by_identifier, check_for_pin_collisions,
  collisions,
}
use avr_ha_lib.Portmap.Parser.Blocks.{
  parse_property, parse_pin_block, skip_to_semicolon, vport_token, add_pin_block, vport_loop,
  parse_virtual_port,
}
use avr_ha_lib.Portmap.Parser.Outcomes.{remaining}
use avr_ha_lib.Portmap.Parser.Portmaps.{
  check_name, parse_vport_entry, parse_pin_entry, parse_property_entry, body_token, portmap_loop,
  parse_head, need_controller, parse_portmap, Parsed, parse_portmap_entry, parse_loop, parse,
}
use avr_ha_lib.Portmap.Parser.Portmaps.Collisions.{Disjoint, collisions-Disjoint}
use avr_ha_lib.Portmap.Parser.Portmaps.Whole.{PortmapOk}
use avr_ha_lib.Portmap.Parser.Portmaps.Results.{parse-terminates, parse-PortmapOk, parse-generate}

abbrev is_some : Option PortmapCode → Bool
is_some none = false
is_some (some c) = true

is_some-value : (o : Option PortmapCode) → is_some o ≡ true → (c : PortmapCode) × (o ≡ some c)
is_some-value none h = absurd (cc)
is_some-value (some c) h = (c, refl)

abbrev blank : PinBlock
blank = record { identifier = []; line = 0; port = 0; first_pin = 0; last_pin = 0 }

abbrev at_start : Text → Parser
at_start cs = record {
  tokenizer = new_tokenizer;
  stream = cs;
  parse_error_num = 0;
  target_controller = some atmega32;
}

abbrev value_of : Run Parsed → Parsed
value_of (done r s) = r
value_of exited = record { portmaps = []; copy_sections = [] }
value_of out_of_fuel = record { portmaps = []; copy_sections = [] }

abbrev state_of : Run Parsed → Parser
state_of (done r s) = s
state_of exited = at_start []
state_of out_of_fuel = at_start []

-- A port map between two lines.
abbrev file : Text
file = codes "#1\nportmap P { pin a: b 3; pins c: b 4-7; vport v { a, c }; property q = 5; };\n#2\n"

abbrev read : Run Parsed
read = parse 300 blank (at_start file)

-- The run came back without an error.
abbrev clean : Run Parsed → Bool
clean (done r s) = s.parse_error_num == 0
clean exited = false
clean out_of_fuel = false

clean-done :
    (r : Run Parsed)
    → clean r ≡ true
    → (r ≡ done (value_of r) (state_of r)) × ((state_of r).parse_error_num ≡ 0)
clean-done (done r s) h = (refl, (==_iff s.parse_error_num 0).0 h)
clean-done exited h = absurd (cc)
clean-done out_of_fuel h = absurd (cc)

read-clean : clean read ≡ true
unfolding parse parse_loop parse_portmap_entry parse_portmap need_controller parse_head portmap_loop
    body_token parse_property_entry parse_pin_entry parse_vport_entry check_name parse_virtual_port
    vport_loop add_pin_block vport_token skip_to_semicolon parse_pin_block parse_property
    check_for_pin_collisions get_obj_pointer_by_identifier check_identifier_unique check_token
    put_back get_needed_token parse_error is_keyword put_back_token get_token outside_token
    inside_token lex lex_word lex_number skip outside outside_step check_pin check_port
    get_target_controller ◌+ℤ◌
read-clean = refl

enough : remaining (at_start file) < 300
enough = omega arith

parse-terminates_example : parse 300 blank (at_start file) ≢ out_of_fuel
parse-terminates_example = parse-terminates 300 blank (at_start file) enough

parse-PortmapOk_example : All (PortmapOk (some atmega32)) (value_of read).portmaps
parse-PortmapOk_example =
    parse-PortmapOk 300 blank (at_start file) (state_of read) (value_of read) enough
      (clean-done read read-clean).0 (clean-done read read-clean).1

-- What `generatePortmap` writes for the port maps of the file.
abbrev written : Portmap → Option PortmapCode
written pm = generate_portmap (some atmega32) pm

abbrev each_written : List Portmap → Bool
each_written [] = true
each_written (p ∷ ps) = is_some (written p) && each_written ps

all_written : each_written (value_of read).portmaps ≡ true
unfolding parse parse_loop parse_portmap_entry parse_portmap need_controller parse_head portmap_loop
    body_token parse_property_entry parse_pin_entry parse_vport_entry check_name parse_virtual_port
    vport_loop add_pin_block vport_token skip_to_semicolon parse_pin_block parse_property
    check_for_pin_collisions get_obj_pointer_by_identifier check_identifier_unique check_token
    put_back get_needed_token parse_error is_keyword put_back_token get_token outside_token
    inside_token lex lex_word lex_number skip outside outside_step check_pin check_port
    get_target_controller ◌+ℤ◌ generate_portmap generate_virtual_port terms get_bit_mask mask_zeros
    mask_digits get_data_type generate_pin_block generate_map_entries members padding sort
    get_address
all_written = refl

each_written-IsWritten :
    (ps : List Portmap) → each_written ps ≡ true → All (IsWritten (some atmega32)) ps
each_written-IsWritten [] h = tt
each_written-IsWritten (p ∷ ps) h =
    (is_some-value (written p) (ground (arith, h)), each_written-IsWritten ps (ground (arith, h)))

parse-generate_example :
    (xs : List Part) × (os : List Output) × Merged 0
      (value_of read).portmaps
      (value_of read).copy_sections
      xs
    × (generate (some atmega32) (value_of read).portmaps (value_of read).copy_sections ≡ some os)
    × Outputs (some atmega32) xs os
parse-generate_example =
    parse-generate 300 blank (at_start file) (state_of read) (value_of read) enough
      (clean-done read read-clean).0 (clean-done read read-clean).1
      (each_written-IsWritten (value_of read).portmaps all_written)

abbrev pins : ℕ → ℕ → PinBlock
pins first last = record {
  identifier = [];
  line = 1;
  port = b'a';
  first_pin = first;
  last_pin = last;
}

-- `a 0-3`, `a 2` and `a 3-5` share the pins 2 and 3, the second one twice.
collisions_counted : collisions (pins 0 3 ∷ pins 2 2 ∷ pins 3 5 ∷ []) ≡ 2
collisions_counted = refl

collisions-Disjoint_example : Disjoint (pins 0 3 ∷ pins 4 4 ∷ pins 5 7 ∷ [])
collisions-Disjoint_example = (collisions-Disjoint (pins 0 3 ∷ pins 4 4 ∷ pins 5 7 ∷ [])).0 refl

-- A range that falls to 0 is no error, and neither is counted a pin of it.
backwards-clean :
    clean (parse 300 blank (at_start (codes "portmap P { pins x: a 3-0; pin y: a 3; };"))) ≡ true
unfolding parse parse_loop parse_portmap_entry parse_portmap need_controller parse_head portmap_loop
    body_token parse_property_entry parse_pin_entry parse_vport_entry check_name parse_virtual_port
    vport_loop add_pin_block vport_token skip_to_semicolon parse_pin_block parse_property
    check_for_pin_collisions get_obj_pointer_by_identifier check_identifier_unique check_token
    put_back get_needed_token parse_error is_keyword put_back_token get_token outside_token
    inside_token lex lex_word lex_number skip outside outside_step check_pin check_port
    get_target_controller ◌+ℤ◌
backwards-clean = refl
