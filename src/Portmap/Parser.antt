-- ===== src/Portmap/Parser.antt =====
-- tools/portmapgen/src/parse.cpp: the parser's state, its errors and its checks. What an error says is
-- not modelled, only that it is counted; `exit(1)` ends the run.
pub mod Blocks
pub mod Outcomes
pub mod Pins
pub mod Vports
pub mod Portmaps
use avr_ha_lib.Prelude.{
  ℕ, zero, suc, ◌+◌, ◌-◌, ◌*◌, Bool, true, false, not, ◌&&◌, ◌||◌, Option, none, some, List, [],
  ◌∷◌, ◌++◌, ◌==◌, leb, ltb, if◌then◌else◌, map,
}
use avr_ha_lib.Portmap.Text.{Text, text_eq, is_digit}
use avr_ha_lib.Portmap.Uc.{Controller}
use avr_ha_lib.Portmap.Description.{PinBlock}
use avr_ha_lib.Portmap.Tokenizer.{
  TokenType, Token, Tokenizer, unknown, left_brace, right_brace, colon, semicolon, minus, equals,
  comma, number, identifier, portmap_keyword, pin_keyword, pins_keyword, vport_keyword, for_keyword,
  property_keyword, get_token, put_back_token,
}

-- The tokenizer, the rest of the file, `parseErrorNum`, and the controller of the command line.
pub record Parser : Type 0 where
  pub tokenizer : Tokenizer
  pub stream : Text
  pub parse_error_num : ℕ
  pub target_controller : Option Controller

-- How a part of the parser ends: with a value, by `exit(1)`, or not within the rounds given to a loop.
pub data Run (A : Type 0) : Type 0 where
  done : A → Parser → Run A
  exited : Run A
  out_of_fuel : Run A

abbrev pub Parse : Type 0 → Type 0
Parse A = Parser → Run A

abbrev pub run_then : {A B : Type 0} → Run A → (A → Parse B) → Run B
run_then (done a s) f = f a s
run_then exited f = exited
run_then out_of_fuel f = out_of_fuel

infixl 10 ◌>>=◌
abbrev pub ◌>>=◌ : {A B : Type 0} → Parse A → (A → Parse B) → Parse B
◌>>=◌ m f = λ s. run_then (m s) f

abbrev pub return : {A : Type 0} → A → Parse A
return a = λ s. done a s

-- The number of the enumerator.
abbrev pub type_number : TokenType → ℕ
type_number unknown = 0
type_number left_brace = 1
type_number right_brace = 2
type_number colon = 3
type_number semicolon = 4
type_number minus = 5
type_number equals = 6
type_number comma = 7
type_number number = 8
type_number identifier = 9
type_number portmap_keyword = 10
type_number pin_keyword = 11
type_number pins_keyword = 12
type_number vport_keyword = 13
type_number for_keyword = 14
type_number property_keyword = 15

abbrev pub is : Token → TokenType → Bool
is t k = type_number t.type == type_number k

unfoldable pub is_keyword : Token → Bool
is_keyword t = ltb (type_number portmap_keyword) (type_number t.type)

-- `parseError`: the tenth error ends the run, and so does a fatal one.
unfoldable pub parse_error : Bool → Parse Unit
parse_error fatal s =
    let n = s.parse_error_num + 1 in
    if leb 10 n || fatal then exited else done tt (record s { parse_error_num = n })

abbrev pub error_if : Bool → Parse Unit
error_if wrong = if wrong then parse_error false else return tt

-- `getNeededToken`: the end of the file is a fatal error.
unfoldable pub get_needed_token : Parse Token
get_needed_token s =
    let (good, token, t, rest) = get_token s.tokenizer s.stream in
    let s' = record s { tokenizer = t; stream = rest } in
    if good then done token s' else run_then (parse_error true s') (λ u. return token)

unfoldable pub put_back : Token → Parse Unit
put_back token s = done tt (record s { tokenizer = put_back_token token s.tokenizer })

unfoldable pub check_token : Token → TokenType → Parse Bool
check_token t k = if is t k then return true else (parse_error false >>= λ u. return false)

abbrev pub in_texts : Text → List Text → Bool
in_texts id [] = false
in_texts id (x ∷ xs) = text_eq x id || in_texts id xs

-- `checkIdentifierUnique` and `checkIdentfierNotIn`, of the identifiers of the list.
unfoldable pub check_identifier_unique : List Text → Text → Parse Bool
check_identifier_unique xs id =
    if in_texts id xs then (parse_error false >>= λ u. return false) else return true

abbrev pub find_pin_block : Text → List PinBlock → Option PinBlock
find_pin_block id [] = none
find_pin_block id (p ∷ ps) = if text_eq p.identifier id then some p else find_pin_block id ps

-- `getObjPointerByIdentifier`, of pins.
unfoldable pub get_obj_pointer_by_identifier : List PinBlock → Text → Parse (Option PinBlock)
get_obj_pointer_by_identifier ps id = elim (find_pin_block id ps) [
  | some p ↦ return (some p)
  | none ↦ parse_error false >>= λ u. return none
]

-- The pins `i`, ..., `i + n - 1` that the block has.
abbrev pub hits : PinBlock → ℕ → ℕ → ℕ
hits p zero i = 0
hits p (suc n) i = (if leb p.first_pin i && leb i p.last_pin then 1 else 0) + hits p n (i + 1)

abbrev pub collisions_of_two : PinBlock → PinBlock → ℕ
collisions_of_two p q =
    if p.port == q.port then hits q (p.last_pin + 1 - p.first_pin) p.first_pin else 0

abbrev pub collisions_with : PinBlock → List PinBlock → ℕ
collisions_with p [] = 0
collisions_with p (q ∷ qs) = collisions_of_two p q + collisions_with p qs

abbrev pub collisions : List PinBlock → ℕ
collisions [] = 0
collisions (p ∷ ps) = collisions_with p ps + collisions ps

-- `checkForPinCollisions`, which counts errors past the limit.
unfoldable pub check_for_pin_collisions : List PinBlock → Parse Unit
check_for_pin_collisions ps s =
    done tt (record s { parse_error_num = s.parse_error_num + collisions ps })

-- The digits at the start of the text, behind the value of those before.
abbrev digits : ℕ → Text → ℕ
digits n [] = n
digits n (c ∷ cs) = if is_digit c then digits (10 * n + (c - b'0')) cs else n

-- `atoi` of the text of a number, which begins with a digit. The source's result is an `int`, and undefined
-- for a number that an `int` cannot hold; here it is that number.
abbrev pub atoi : Text → ℕ
atoi cs = digits 0 cs
