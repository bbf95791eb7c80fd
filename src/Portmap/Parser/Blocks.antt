-- ===== src/Portmap/Parser/Blocks.antt =====
-- tools/portmapgen/src/parse.cpp: a property, a pin or pins, and a virtual port. The object that a
-- function fills is its argument and its result.
use avr_ha_lib.Prelude.{
  ℕ, zero, suc, Bool, true, false, not, ◌&&◌, ◌||◌, Option, none, some, List, [], ◌∷◌, ◌++◌, ◌==◌,
  ltb, if◌then◌else◌, length, map,
}
use avr_ha_lib.Portmap.Text.{Text, codes, text_eq, is_alpha, to_lower}
use avr_ha_lib.Portmap.Uc.{Controller, check_port, check_pin}
use avr_ha_lib.Portmap.Description.{PinBlock, VirtualPort, Property}
use avr_ha_lib.Portmap.Tokenizer.{
  Token, left_brace, right_brace, colon, semicolon, minus, equals, comma, number, identifier,
}
use avr_ha_lib.Portmap.Parser.{
  Parse, out_of_fuel, ◌>>=◌, return, is, is_keyword, error_if, parse_error, get_needed_token,
  put_back, check_token, check_identifier_unique, get_obj_pointer_by_identifier, atoi,
}

-- A token put back, and the end of the function.
abbrev pub put_back_and : {A : Type 0} → Token → A → Parse A
put_back_and t a = put_back t >>= λ u. return a

-- `;`, which a right brace or a keyword may stand for.
abbrev pub parse_end : {A : Type 0} → A → Parse A
parse_end a = get_needed_token >>= λ t. check_token t semicolon >>= λ ok.
    if is t right_brace || is_keyword t then put_back_and t a else return a

-- `<numberOrBool> ;`
abbrev pub parse_property_value : Property → Parse Property
parse_property_value p = get_needed_token >>= λ t.
    let truth =
      is t identifier && (text_eq t.content (codes "true") || text_eq t.content (codes "false")) in
    error_if (not truth && not (is t number)) >>= λ u.
    let p' = record p { value = t.content } in
    if is t semicolon
    then return p'
    else if is t right_brace
    then put_back_and t p'
    else parse_end p'

unfoldable pub parse_property : Property → Parse Property
parse_property p = get_needed_token >>= λ t. check_token t equals >>= λ ok.
    if is t number || is t identifier
    then (put_back t >>= λ u. parse_property_value p)
    else if is t semicolon
    then return p
    else if is t right_brace
    then put_back_and t p
    else parse_property_value p

-- The first character of the text; 0 ends an empty one.
abbrev pub first_char : Text → ℕ
first_char [] = 0
first_char (c ∷ cs) = c

-- Whether the text is a port character.
abbrev pub one_letter : Text → Bool
one_letter s = (length s == 1) && is_alpha (first_char s)

-- The controller of the port map, or of the command line.
abbrev pub controller_for : Option Controller → Option Controller → Option Controller
controller_for none k = k
controller_for (some k') k = some k'

-- The number of a pin, 0 for what is none.
abbrev pub parse_pin : Token → Parse ℕ
parse_pin t = check_token t number >>= λ ok.
    if ok
    then (error_if (check_pin (atoi t.content)) >>= λ u. return (atoi t.content))
    else return 0

-- The second number of `pins`, behind the minus.
abbrev pub parse_last_pin : PinBlock → Parse PinBlock
parse_last_pin p = get_needed_token >>= λ t. parse_pin t >>= λ n.
    let p' = record p { last_pin = n } in
    error_if (not (n == 0) && not (p.first_pin == 0) && ltb n p.first_pin) >>= λ u.
    if is t semicolon
    then return p'
    else if is t right_brace
    then put_back_and t p'
    else parse_end p'

-- `- <number>`
abbrev pub parse_range : PinBlock → Parse PinBlock
parse_range p = get_needed_token >>= λ t. check_token t minus >>= λ ok.
    if is t number
    then (put_back t >>= λ u. parse_last_pin p)
    else if is t semicolon
    then return p
    else if is t right_brace
    then put_back_and t p
    else parse_last_pin p

-- The first number, and the rest; `several` for `pins`.
abbrev pub parse_pins : Bool → PinBlock → Parse PinBlock
parse_pins several p = get_needed_token >>= λ t. parse_pin t >>= λ n.
    let p' = record p { first_pin = n; last_pin = n } in
    if is t semicolon
    then return p'
    else if is t right_brace
    then put_back_and t p'
    else if several
    then parse_range p'
    else parse_end p'

-- The error for a port character that is none, or none of the controller.
abbrev pub bad_port : Option Controller → Token → Bool
bad_port k t =
    if not (is t identifier) || not (one_letter t.content)
    then true
    else check_port (first_char t.content) k

-- The port character, and the rest; `k` is the controller.
abbrev pub port_token : Bool → Option Controller → PinBlock → Parse PinBlock
port_token several k p = get_needed_token >>= λ t. error_if (bad_port k t) >>= λ u.
    let p' = record p { port = to_lower (first_char t.content) } in
    if is t semicolon
    then return p
    else if is t number
    then (put_back t >>= λ u'. parse_pins several p')
    else if is t right_brace
    then put_back_and t p
    else parse_pins several p'

abbrev pub parse_port : Bool → Option Controller → PinBlock → Parse PinBlock
parse_port several k p s = port_token several (controller_for k s.target_controller) p s

-- `several` for the keyword `pins`, and the controller of the port map.
unfoldable pub parse_pin_block : Bool → Option Controller → PinBlock → Parse PinBlock
parse_pin_block several k p = get_needed_token >>= λ t. check_token t colon >>= λ ok.
    if is t identifier || is t number
    then (put_back t >>= λ u. parse_port several k p)
    else parse_port several k p

-- The tokens up to a semicolon are passed over.
unfoldable pub skip_to_semicolon : ℕ → Token → Parse Unit
skip_to_semicolon zero t = λ s. out_of_fuel
skip_to_semicolon (suc f) t =
    if is t semicolon then return tt else (get_needed_token >>= skip_to_semicolon f)

-- What a token means in the list of a virtual port.
pub data VportToken : Type 0 where
  list_closed : VportToken
  vport_closed : VportToken
  pin_named : VportToken
  unexpected : VportToken

unfoldable pub vport_token : Bool → Token → VportToken
vport_token vport_end t =
    if is t right_brace && not vport_end
    then list_closed
    else if is t semicolon && vport_end
    then vport_closed
    else if is t identifier
    then pin_named
    else unexpected

-- A pin that is known is added if it is not yet in the list.
abbrev pub add_found : Text → VirtualPort → Option PinBlock → Parse VirtualPort
add_found id vp none = return vp
add_found id vp (some pb) =
    check_identifier_unique (map (λ (p : PinBlock). p.identifier) vp.pin_blocks) id >>= λ ok.
    return (if ok then record vp { pin_blocks = vp.pin_blocks ++ (pb ∷ []) } else vp)

unfoldable pub add_pin_block : List PinBlock → Text → VirtualPort → Parse VirtualPort
add_pin_block known id vp = get_obj_pointer_by_identifier known id >>= add_found id vp

-- `,` or `}` behind a pin.
abbrev pub parse_comma : VirtualPort → Parse VirtualPort
parse_comma vp = get_needed_token >>= λ t.
    if is t right_brace
    then put_back_and t vp
    else (check_token t comma >>= λ ok.
        if not ok && is t identifier then put_back_and t vp else return vp)

-- The `while (1)` of `parseVirtualPort`; `known` are the pins of the port map.
unfoldable pub vport_loop : ℕ → List PinBlock → Bool → VirtualPort → Parse VirtualPort
vport_loop zero known vport_end vp = λ s. out_of_fuel
vport_loop (suc f) known vport_end vp = get_needed_token >>= λ t. elim (vport_token vport_end t) [
  | list_closed ↦ vport_loop f known true vp
  | vport_closed ↦ return vp
  | pin_named ↦ add_pin_block known t.content vp >>= λ vp'.
      parse_comma vp' >>= λ vp''. vport_loop f known vport_end vp''
  | unexpected ↦ parse_error false >>= λ u.
      if vport_end
      then put_back_and t vp
      else (skip_to_semicolon f t >>= λ u'. vport_loop f known vport_end vp)
]

unfoldable pub parse_virtual_port : ℕ → List PinBlock → VirtualPort → Parse VirtualPort
parse_virtual_port f known vp =
    get_needed_token >>= λ t. check_token t left_brace >>= λ ok. vport_loop f known false vp
