-- ===== src/Portmap/Parser/Portmaps.antt =====
-- tools/portmapgen/src/parse.cpp: a port map, and the whole file. `fresh` is what a new `PinBlock` holds
-- before its members are set.
pub mod Collisions
pub mod Entries
pub mod Whole
pub mod Files
pub mod Results
mod Tests
use avr_ha_lib.Prelude.{
  ℕ, zero, suc, ◌+◌, Bool, true, false, not, ◌&&◌, ◌||◌, Option, none, some, List, [], ◌∷◌, ◌++◌,
  ◌==◌, if◌then◌else◌, map,
}
use avr_ha_lib.Portmap.Text.{Text}
use avr_ha_lib.Portmap.Uc.{Controller, get_target_controller}
use avr_ha_lib.Portmap.Description.{PinBlock, VirtualPort, Property, Portmap, CopySection}
use avr_ha_lib.Portmap.Tokenizer.{
  TokenType, Token, Tokenizer, left_brace, right_brace, colon, semicolon, equals, identifier,
  portmap_keyword, pin_keyword, pins_keyword, vport_keyword, for_keyword, property_keyword,
  get_token,
}
use avr_ha_lib.Portmap.Parser.{
  Parser, Run, Parse, done, out_of_fuel, run_then, ◌>>=◌, return, is, error_if, parse_error,
  get_needed_token, put_back, check_token, check_identifier_unique, check_for_pin_collisions,
}
use avr_ha_lib.Portmap.Parser.Blocks.{
  put_back_and, controller_for, parse_property, parse_pin_block, skip_to_semicolon,
  parse_virtual_port,
}

abbrev pub property_names : Portmap → List Text
property_names pm = map (λ (p : Property). p.identifier) pm.properties

abbrev pub pin_names : Portmap → List Text
pin_names pm = map (λ (p : PinBlock). p.identifier) pm.pin_blocks

abbrev pub vport_names : Portmap → List Text
vport_names pm = map (λ (v : VirtualPort). v.identifier) pm.vports

-- The identifier behind a keyword inside of a port map.
unfoldable pub check_name : Portmap → Token → Parse Unit
check_name pm t = check_token t identifier >>= λ ok.
    if ok
    then (check_identifier_unique (property_names pm) t.content >>= λ a.
        check_identifier_unique (pin_names pm) t.content >>= λ b.
        check_identifier_unique (vport_names pm) t.content >>= λ c. return tt)
    else return tt

-- `getCurLine`
abbrev pub get_cur_line : Parse ℕ
get_cur_line s = done s.tokenizer.current_line_number s

-- The keyword `vport`, a virtual port, and its place in the port map.
unfoldable pub parse_vport_entry : ℕ → Portmap → Parse Portmap
parse_vport_entry f pm = get_needed_token >>= λ t. check_name pm t >>= λ u.
    if is t right_brace
    then put_back_and t pm
    else if is t semicolon
    then return pm
    else (get_cur_line >>= λ n.
        let vp : VirtualPort = record { identifier = t.content; line = n; pin_blocks = [] } in
        parse_virtual_port f pm.pin_blocks vp >>= λ vp'.
        return (record pm { vports = pm.vports ++ (vp' ∷ []) }))

-- A token put back if the condition holds.
abbrev pub put_back_if : Bool → Token → Parse Unit
put_back_if b t = if b then put_back t else return tt

-- The keywords `pin` and, if `several`, `pins`.
unfoldable pub parse_pin_entry : PinBlock → Bool → Portmap → Parse Portmap
parse_pin_entry fresh several pm = get_needed_token >>= λ t. check_name pm t >>= λ u.
    if is t right_brace
    then put_back_and t pm
    else if is t semicolon
    then return pm
    else (put_back_if (is t colon) t >>= λ u'. get_cur_line >>= λ n.
        let p = record fresh { identifier = t.content; line = n } in
        parse_pin_block several pm.target_controller p >>= λ p'.
        return (record pm { pin_blocks = pm.pin_blocks ++ (p' ∷ []) }))

unfoldable pub parse_property_entry : Portmap → Parse Portmap
parse_property_entry pm = get_needed_token >>= λ t. check_name pm t >>= λ u.
    if is t right_brace
    then put_back_and t pm
    else if is t semicolon
    then return pm
    else (put_back_if (is t equals) t >>= λ u'. get_cur_line >>= λ n.
        let p : Property = record { identifier = t.content; line = n; value = [] } in
        parse_property p >>= λ p'. return (record pm { properties = pm.properties ++ (p' ∷ []) }))

-- What a token means in the body of a port map.
pub data BodyToken : Type 0 where
  body_closed : BodyToken
  portmap_closed : BodyToken
  vport_entry : BodyToken
  pin_entry : Bool → BodyToken
  property_entry : BodyToken
  unexpected : BodyToken

unfoldable pub body_token : Bool → Token → BodyToken
body_token portmap_end t =
    if is t right_brace && not portmap_end
    then body_closed
    else if is t semicolon && portmap_end
    then portmap_closed
    else if is t vport_keyword
    then vport_entry
    else if is t pin_keyword || is t pins_keyword
    then pin_entry (is t pins_keyword)
    else if is t property_keyword
    then property_entry
    else unexpected

-- The `while (1)` of `parsePortmap`.
unfoldable pub portmap_loop : ℕ → PinBlock → Bool → Portmap → Parse Portmap
portmap_loop zero fresh portmap_end pm = λ s. out_of_fuel
portmap_loop (suc f) fresh portmap_end pm = get_needed_token >>= λ t.
    elim (body_token portmap_end t) [
      | body_closed ↦ portmap_loop f fresh true pm
      | portmap_closed ↦ return pm
      | vport_entry ↦ parse_vport_entry f pm >>= portmap_loop f fresh portmap_end
      | pin_entry several ↦ parse_pin_entry fresh several pm >>= portmap_loop f fresh portmap_end
      | property_entry ↦ parse_property_entry pm >>= portmap_loop f fresh portmap_end
      | unexpected ↦ parse_error false >>= λ u.
          if portmap_end
          then put_back_and t pm
          else (skip_to_semicolon f t >>= λ u'. portmap_loop f fresh portmap_end pm)
    ]

abbrev pub is_none : {A : Type 0} → Option A → Bool
is_none none = true
is_none (some a) = false

-- `for <controller>`, and the left brace.
unfoldable pub parse_head : Portmap → Parse Portmap
parse_head pm = get_needed_token >>= λ t.
    if is t for_keyword
    then (get_needed_token >>= λ t'.
        let k = if is t' identifier then get_target_controller t'.content else none in
        error_if (is t' identifier && is_none k) >>= λ u. get_needed_token >>= λ t''.
        check_token t'' left_brace >>= λ ok. return (record pm { target_controller = k }))
    else (check_token t left_brace >>= λ ok. return (record pm { target_controller = none }))

-- The fatal error for a port map without a controller.
unfoldable pub need_controller : Option Controller → Parse Unit
need_controller k s =
    if is_none (controller_for k s.target_controller) then parse_error true s else done tt s

unfoldable pub parse_portmap : ℕ → PinBlock → Portmap → Parse Portmap
parse_portmap f fresh pm = parse_head pm >>= λ pm'. need_controller pm'.target_controller >>= λ u.
    portmap_loop f fresh false pm' >>= λ pm''.
    check_for_pin_collisions pm''.pin_blocks >>= λ u'. return pm''

-- The lists of `PortmapGenerationProcess`.
pub record Parsed : Type 0 where
  pub portmaps : List Portmap
  pub copy_sections : List CopySection

-- The keyword `portmap`, and the port map at the end of the list.
unfoldable pub parse_portmap_entry : ℕ → PinBlock → ℕ → Parsed → Parse Parsed
parse_portmap_entry f fresh seq_num r = get_needed_token >>= λ t. check_token t identifier >>= λ ok.
    (if ok
      then check_identifier_unique (map (λ (pm : Portmap). pm.identifier) r.portmaps) t.content
      else return false)
    >>= λ u.
        if is t right_brace
        then put_back_and t r
        else if is t semicolon
        then return r
        else (get_cur_line >>= λ n.
            let pm : Portmap = record {
              sequence_number = seq_num;
              identifier = t.content;
              line = n;
              target_controller = none;
              properties = [];
              pin_blocks = [];
              vports = [];
            } in
            parse_portmap f fresh pm >>= λ pm'.
            return (record r { portmaps = r.portmaps ++ (pm' ∷ []) }))

abbrev pub copy_section : ℕ → Text → Parsed → Parsed
copy_section seq_num content r =
    let cs : CopySection = record { sequence_number = seq_num; content = content } in
    record r { copy_sections = r.copy_sections ++ (cs ∷ []) }

-- The loop of `parse`.
unfoldable pub parse_loop : ℕ → PinBlock → ℕ → Parsed → Parse Parsed
parse_loop zero fresh seq_num r s = out_of_fuel
parse_loop (suc f) fresh seq_num r s =
    let (good, token, t, rest) = get_token s.tokenizer s.stream in
    let s' = record s { tokenizer = t; stream = rest } in
    elim good [
      | false ↦ done r s'
      | true ↦ elim (is token portmap_keyword) [
        | true ↦
            run_then (parse_portmap_entry f fresh seq_num r s') (parse_loop f fresh (seq_num + 1))
        | false ↦ parse_loop f fresh (seq_num + 1) (copy_section seq_num token.content r) s'
      ]
    ]

unfoldable pub parse : ℕ → PinBlock → Parse Parsed
parse f fresh s =
    parse_loop f fresh 0 (record { portmaps = []; copy_sections = [] })
      (record s { parse_error_num = 0 })
