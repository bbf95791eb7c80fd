-- ===== src/Portmap/Tokenizer/Words.antt =====
-- A word inside of a block.
use avr_ha_lib.Prelude.{
  ℕ, ◌≡◌, refl, Bool, true, false, ◌||◌, none, [], ◌∷◌, ◌++◌, ◌==◌, arith, All,
}
use avr_ha_lib.Prelude.Int.{ℤ}
use avr_ha_lib.Portmap.Text.{Text, is_digit, is_alpha, is_alnum, is_space}
use avr_ha_lib.Portmap.Tokenizer.{
  Tokenizer, blanks, skip, lex_word, word_type, lex, inside_token, get_token,
}

-- What stands behind a word: the end, or a character that is no letter and no digit.
abbrev pub Ends : Text → Type 0
Ends [] = Unit
Ends (c ∷ cs) = is_alnum c ≡ false

lex_word_whole :
    (w rest : Text)
    → All (λ (c : ℕ). is_alnum c ≡ true) w
    → Ends rest
    → lex_word (w ++ rest) ≡ (w, rest)
unfolding lex_word
lex_word_whole [] [] h e = refl
lex_word_whole [] (c ∷ cs) h e = rw e refl
lex_word_whole (c ∷ w) rest h e = rw (h.0, lex_word_whole w rest h.1 e) refl

-- A word's first character.
abbrev pub begins_word : ℕ → Bool
begins_word c = is_alpha c || (c == b'_')

-- Such a character is none of the others.
word_only :
    (c : ℕ)
    → begins_word c ≡ true
    → ((c == b'/') ≡ false)
      × ((c == b'*') ≡ false)
      × (is_space c ≡ false)
      × (is_digit c ≡ false)
      × ((c == b'{') ≡ false)
      × ((c == b'}') ≡ false)
      × ((c == b';') ≡ false)
      × ((c == b':') ≡ false)
      × ((c == b'-') ≡ false)
      × ((c == b'=') ≡ false)
      × ((c == b',') ≡ false)
word_only c h = (
  ground arith,
  ground arith,
  ground arith,
  ground arith,
  ground arith,
  ground arith,
  ground arith,
  ground arith,
  ground arith,
  ground arith,
  ground arith,
)

skip-word :
    (c line last : ℕ) (cs : Text)
    → begins_word c ≡ true
    → skip (blanks false) line last (c ∷ cs) ≡ (line, last, c ∷ cs)
unfolding skip
skip-word c line last cs h =
    let (slash, star, space, digit, a1, a2, a3, a4, a5, a6, a7) = word_only c h in
    rw (slash, star, space) refl

lex-word :
    (t : Tokenizer) (c : ℕ) (w rest : Text)
    → begins_word c ≡ true
    → All (λ (d : ℕ). is_alnum d ≡ true) w
    → Ends rest
    → lex t c (w ++ rest) ≡ (record { type = word_type (c ∷ w); content = c ∷ w }, t, rest)
unfolding lex
lex-word t c w rest h all e =
    let (slash, star, space, digit, a1, a2, a3, a4, a5, a6, a7) = word_only c h in
    rw (a1, a2, a3, a4, a5, a6, a7, digit, h, lex_word_whole w rest all e) refl

-- A tokenizer inside of a block with no token put back.
abbrev pub in_block : ℕ → ℤ → ℕ → Tokenizer
in_block line depth last = record {
  current_line_number = line;
  inside_portmap_block = true;
  brace_depth = depth;
  put_back = none;
  last_char = last;
}

-- Inside of a block, a letter or underscore and the letters and digits behind it, up to another
-- character or the end of the file, are read as one token: a keyword if they are one, and else an
-- identifier. The rest is left, and the tokenizer stays as it is.
pub get_token-word :
    (line : ℕ) (depth : ℤ) (last c : ℕ) (w rest : Text)
    → begins_word c ≡ true
    → All (λ (d : ℕ). is_alnum d ≡ true) w
    → Ends rest
    → let t = in_block line depth last in
      get_token t (c ∷ w ++ rest)
      ≡ (true, record { type = word_type (c ∷ w); content = c ∷ w }, t, rest)
unfolding get_token inside_token
get_token-word line depth last c w rest h all e =
    let blank = skip-word c line last (w ++ rest) h in
    rw (blank, lex-word (in_block line depth last) c w rest h all e) refl
