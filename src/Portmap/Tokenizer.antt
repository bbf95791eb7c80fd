-- ===== src/Portmap/Tokenizer.antt =====
-- tools/portmapgen/{include/parse.h,src/parse.cpp}: the tokenizer. The stream is the rest of the file;
-- what `unget` and `putback` return to it is put in front again. Characters are ASCII.
pub mod Copying
pub mod Words
pub mod Progress
mod Tests
use avr_ha_lib.Prelude.{
  ℕ, zero, suc, ◌+◌, Bool, true, false, not, ◌&&◌, ◌||◌, Option, none, some, List, [], ◌∷◌, ◌++◌,
  ◌==◌, leb, if◌then◌else◌, take, drop, length,
}
use avr_ha_lib.Prelude.Int.{ℤ, pos, negsuc, ◌+ℤ◌}
use mathlib.Core.List.{reverse}
use avr_ha_lib.Portmap.Text.{Text, codes, text_eq, is_digit, is_alpha, is_alnum, is_space}

-- `TokenType`
pub data TokenType : Type 0 where
  unknown : TokenType
  left_brace : TokenType
  right_brace : TokenType
  colon : TokenType
  semicolon : TokenType
  minus : TokenType
  equals : TokenType
  comma : TokenType
  number : TokenType
  identifier : TokenType
  portmap_keyword : TokenType
  pin_keyword : TokenType
  pins_keyword : TokenType
  vport_keyword : TokenType
  for_keyword : TokenType
  property_keyword : TokenType

pub record Token : Type 0 where
  pub type : TokenType
  pub content : Text

-- The members, and the static variable `lastChar`.
pub record Tokenizer : Type 0 where
  pub current_line_number : ℕ
  pub inside_portmap_block : Bool
  pub brace_depth : ℤ
  pub put_back : Option Token
  pub last_char : ℕ

abbrev pub new_tokenizer : Tokenizer
new_tokenizer = record {
  current_line_number = 1;
  inside_portmap_block = false;
  brace_depth = pos 0;
  put_back = none;
  last_char = 0;
}

-- Which loop of the part outside of blocks reads the next character.
pub data Loop : Type 0 where
  main : Loop
  line_comment : Loop
  block_comment : Loop
  quotation : Loop

-- Where the reading goes on, with `commentStarted`; or the keyword has been read.
pub data Next : Type 0 where
  go_on : Loop → Bool → Next
  keyword : Next

-- The word, its last character first, as the text read so far is kept.
abbrev pub portmap_reversed : Text
portmap_reversed = codes "pamtrop"

-- A character outside of blocks; `seen` is the text read so far with it, its last character first.
unfoldable pub outside_step : Loop → Bool → ℕ → Text → Next
outside_step main started c seen =
    if c == b'\n'
    then go_on main started
    else if c == b'/'
    then (if started then go_on line_comment started else go_on main true)
    else if c == b'*'
    then (if started then go_on block_comment started else go_on main started)
    else if c == b'"'
    then go_on quotation started
    else if (c == b'p') && leb 7 (length seen)
    then (if text_eq (take 7 seen) portmap_reversed then keyword else go_on main false)
    else go_on main started
outside_step line_comment started c seen =
    if c == b'\n' then go_on main false else go_on line_comment started
outside_step block_comment started c seen =
    if text_eq (take 2 seen) (codes "/*") then go_on main false else go_on block_comment started
outside_step quotation started c seen =
    if (c == b'\n') || (c == b'"') then go_on main false else go_on quotation started

abbrev pub next_line : ℕ → ℕ → ℕ
next_line c line = if c == b'\n' then line + 1 else line

-- The loops outside of blocks: whether the keyword was found, the line, the text read, its last
-- character first, and the rest.
unfoldable pub outside : Loop → Bool → ℕ → Text → Text → Bool × ℕ × Text × Text
outside loop started line seen [] = (false, line, seen, [])
outside loop started line seen (c ∷ cs) = elim (outside_step loop started c (c ∷ seen)) [
  | go_on loop' started' ↦ outside loop' started' (next_line c line) (c ∷ seen) cs
  | keyword ↦ (true, line, c ∷ seen, cs)
]

-- Which loop inside of a block skips the next character.
pub data Skip : Type 0 where
  blanks : Bool → Skip
  to_line_end : Skip
  to_comment_end : Skip

-- The white space and comments inside of a block: the line, `lastChar`, and the rest.
unfoldable pub skip : Skip → ℕ → ℕ → Text → ℕ × ℕ × Text
skip (blanks started) line last [] = (line, last, [])
skip to_line_end line last [] = (line + 1, last, [])
skip to_comment_end line last [] = (line, last, [])
skip (blanks started) line last (c ∷ cs) =
    if c == b'/'
    then skip (if started then to_line_end else blanks true) line last cs
    else if c == b'*'
    then skip (if started then to_comment_end else blanks started) line last cs
    else if is_space c
    then skip (blanks started) (next_line c line) last cs
    else (line, last, c ∷ cs)
skip to_line_end line last (c ∷ cs) =
    if c == b'\n' then skip (blanks false) (line + 1) last cs else skip to_line_end line last cs
skip to_comment_end line last (c ∷ cs) =
    if (last == b'*') && (c == b'/')
    then skip (blanks false) (next_line c line) last cs
    else skip to_comment_end (next_line c line) c cs

abbrev pub is_hex_letter : ℕ → Bool
is_hex_letter c = (leb b'a' c && leb c b'f') || (leb b'A' c && leb c b'F')

-- The rest of a number that begins with `first`: the text, and the rest of the stream.
unfoldable pub lex_number : ℕ → Bool → Text → Text × Text
lex_number first is_hex [] = ([], [])
lex_number first is_hex (c ∷ cs) =
    let plain = is_digit c || (c == b'.') || (is_hex && is_hex_letter c) in
    let marks = (first == b'0') && (c == b'x') in
    let (content, rest) = lex_number first (is_hex || (not plain && marks)) cs in
    if plain || marks then (c ∷ content, rest) else ([], c ∷ cs)

-- The rest of an identifier or keyword.
unfoldable pub lex_word : Text → Text × Text
lex_word [] = ([], [])
lex_word (c ∷ cs) =
    let (content, rest) = lex_word cs in if is_alnum c then (c ∷ content, rest) else ([], c ∷ cs)

abbrev pub word_type : Text → TokenType
word_type s =
    if text_eq s (codes "portmap")
    then portmap_keyword
    else if text_eq s (codes "pin")
    then pin_keyword
    else if text_eq s (codes "pins")
    then pins_keyword
    else if text_eq s (codes "vport")
    then vport_keyword
    else if text_eq s (codes "for")
    then for_keyword
    else if text_eq s (codes "property")
    then property_keyword
    else identifier

-- `braceDepth <= 0`
abbrev not_positive : ℤ → Bool
not_positive (pos zero) = true
not_positive (pos (suc n)) = false
not_positive (negsuc n) = true

abbrev single : TokenType → ℕ → Token
single type c = record { type = type; content = c ∷ [] }

-- The token that begins with `c`, behind the white space, and the rest of the stream.
unfoldable pub lex : Tokenizer → ℕ → Text → Token × Tokenizer × Text
lex t c cs =
    if c == b'{'
    then (single left_brace c, record t { brace_depth = t.brace_depth +ℤ pos 1 }, cs)
    else if c == b'}'
    then (single right_brace c, record t { brace_depth = t.brace_depth +ℤ negsuc 0 }, cs)
    else if c == b';'
    then (
      single semicolon c,
      record t {
        inside_portmap_block = if not_positive t.brace_depth then false else t.inside_portmap_block;
      },
      cs,
    )
    else if c == b':'
    then (single colon c, t, cs)
    else if c == b'-'
    then (single minus c, t, cs)
    else if c == b'='
    then (single equals c, t, cs)
    else if c == b','
    then (single comma c, t, cs)
    else if is_digit c
    then (let (content, rest) = lex_number c false cs in
        (record { type = number; content = c ∷ content }, t, rest))
    else if is_alpha c || (c == b'_')
    then (let (content, rest) = lex_word cs in
        (record { type = word_type (c ∷ content); content = c ∷ content }, t, rest))
    else (single unknown c, t, cs)

-- The token behind the blanks, of which there is none at the end of the file.
abbrev pub first_token : Tokenizer → Text → Bool × Token × Tokenizer × Text
first_token t [] = (false, record { type = unknown; content = [] }, t, [])
first_token t (c ∷ cs) = let (token, t', cs') = lex t c cs in (true, token, t', cs')

unfoldable pub inside_token : Tokenizer → Text → Bool × Token × Tokenizer × Text
inside_token t stream =
    let (line, last, rest) = skip (blanks false) t.current_line_number t.last_char stream in
    first_token (record t { current_line_number = line; last_char = last }) rest

-- The text that is returned, and what is left, when the keyword is found or not.
abbrev pub content_of : Bool → Text → Text
content_of found seen = reverse (if found then drop 7 seen else seen)

abbrev pub rest_of : Bool → Text → Text
rest_of found rest = if found then codes "portmap" ++ rest else rest

unfoldable pub outside_token : Tokenizer → Text → Bool × Token × Tokenizer × Text
outside_token t stream =
    let (found, line, seen, rest) = outside main false t.current_line_number [] stream in
    let content = content_of found seen in
    (
      found || not (text_eq content []),
      record { type = unknown; content = content },
      record t { current_line_number = line; inside_portmap_block = found },
      rest_of found rest,
    )

-- `getToken`: whether the stream is good afterwards, the token, and what is left.
unfoldable pub get_token : Tokenizer → Text → Bool × Token × Tokenizer × Text
get_token t stream = elim t.put_back [
  | some token ↦ (true, token, record t { put_back = none }, stream)
  | none ↦ if t.inside_portmap_block then inside_token t stream else outside_token t stream
]

unfoldable pub put_back_token : Token → Tokenizer → Tokenizer
put_back_token token t = record t { put_back = some token }
