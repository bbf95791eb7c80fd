-- ===== src/Portmap/Tokenizer/Progress.antt =====
-- Every token that is read brings the reading nearer to the end of the file.
use mathlib.Core.List.{reverse_aux}
use avr_ha_lib.Prelude.{
  ℕ, suc, ◌+◌, ◌*◌, ◌≤◌, ◌≡◌, refl, sym, ap, ◌∙◌, Bool, true, false, not, ◌&&◌, ◌||◌, Option, none,
  some, [], ◌∷◌, ◌++◌, ◌==◌, if◌then◌else◌, arith, take, drop, length, Bool-cases, Option-cases,
  if_both, inl, inr,
}
use avr_ha_lib.Portmap.Text.{Text, text_eq, is_digit, is_alpha, is_space}
use avr_ha_lib.Portmap.Tokenizer.{
  Token, Tokenizer, Skip, main, blanks, to_line_end, to_comment_end, skip, lex_number, lex_word,
  lex, outside, content_of, rest_of, first_token, inside_token, outside_token, get_token,
  portmap_reversed, is_hex_letter, next_line,
}
use avr_ha_lib.Portmap.Tokenizer.Copying.{outside-Copied, Copied, text_eq→eq, take-drop}

abbrev pub put_back_count : Option Token → ℕ
put_back_count none = 0
put_back_count (some t) = 1

-- What is left to read: each character counts twice.
abbrev pub left : Tokenizer → Text → ℕ
left t stream =
    2 * length stream + (if t.inside_portmap_block then 0 else 1) + put_back_count t.put_back

le_suc : {m n : ℕ} → m ≤ n → m ≤ suc n
le_suc h = omega arith

skip_shorter : (k : Skip) (line last : ℕ) (cs : Text) → length (skip k line last cs).2 ≤ length cs
unfolding skip
skip_shorter (blanks b) line last [] = omega arith
skip_shorter to_line_end line last [] = omega arith
skip_shorter to_comment_end line last [] = omega arith
skip_shorter (blanks b) line last (c ∷ cs) =
    let P = λ (r : ℕ × ℕ × Text). length r.2 ≤ length (c ∷ cs) in
    let on = λ (k : Skip) (n : ℕ). le_suc (skip_shorter k n last cs) in
    if_both P (c == b'/') (on (if b then to_line_end else blanks true) line) (
      if_both P (c == b'*') (on (if b then to_comment_end else blanks b) line)
        (if_both P (is_space c) (on (blanks b) (next_line c line)) (omega arith)))
skip_shorter to_line_end line last (c ∷ cs) =
    let h = skip_shorter (blanks false) (line + 1) last cs in
    let h' = skip_shorter to_line_end line last cs in ground arith
skip_shorter to_comment_end line last (c ∷ cs) =
    let h = skip_shorter (blanks false) (next_line c line) last cs in
    let h' = skip_shorter to_comment_end (next_line c line) c cs in
    if_both (λ (r : ℕ × ℕ × Text). length r.2 ≤ length (c ∷ cs)) ((last == b'*') && (c == b'/'))
      (omega arith) (omega arith)

lex_number_shorter :
    (first : ℕ) (b : Bool) (cs : Text) → length (lex_number first b cs).1 ≤ length cs
unfolding lex_number
lex_number_shorter first b [] = omega arith
lex_number_shorter first b (c ∷ cs) =
    let plain = is_digit c || (c == b'.') || (b && is_hex_letter c) in
    let marks = (first == b'0') && (c == b'x') in
    let h = lex_number_shorter first (b || (not plain && marks)) cs in
    if_both (λ (r : Text × Text). length r.1 ≤ length (c ∷ cs)) (plain || marks) (omega arith)
      (omega arith)

lex_word_shorter : (cs : Text) → length (lex_word cs).1 ≤ length cs
unfolding lex_word
lex_word_shorter [] = omega arith
lex_word_shorter (c ∷ cs) = let h = lex_word_shorter cs in ground arith

left_in_block :
    (t : Tokenizer) (n : ℕ) (rest : Text)
    → t.inside_portmap_block ≡ true
    → t.put_back ≡ none
    → length rest ≤ n
    → left t rest ≤ 2 * n + 1
left_in_block t n rest block none_back h = rw (block, none_back) (omega arith)

one_more : (n : ℕ) (b : Bool) → 2 * n + (if b then 0 else 1) + 0 ≤ 2 * n + 1
one_more n b = ground arith

-- A token takes a character at least; a semicolon may end the block.
lex_progress :
    (t : Tokenizer) (c : ℕ) (cs : Text)
    → t.inside_portmap_block ≡ true
    → t.put_back ≡ none
    → left (lex t c cs).1 (lex t c cs).2 ≤ 2 * length cs + 1
unfolding lex
lex_progress t c cs block none_back =
    let P = λ (r : Token × Tokenizer × Text). left r.1 r.2 ≤ 2 * length cs + 1 in
    let same = left_in_block t (length cs) cs block none_back (omega arith) in
    if_both P (c == b'{') same (
      if_both P (c == b'}') same (
        if_both P (c == b';') (rw none_back (one_more (length cs) _)) (
          if_both P (c == b':') same (
            if_both P (c == b'-') same (
              if_both P (c == b'=') same (
                if_both P (c == b',') same (
                  if_both P (is_digit c)
                    (left_in_block t (length cs) _ block none_back (lex_number_shorter c false cs))
                    (if_both P (is_alpha c || (c == b'_'))
                      (left_in_block t (length cs) _ block none_back (lex_word_shorter cs))
                      same))))))))

length-reverse_aux : (xs ys : Text) → length (reverse_aux xs ys) ≡ length xs + length ys
length-reverse_aux [] ys = omega arith
length-reverse_aux (x ∷ xs) ys = length-reverse_aux xs (x ∷ ys) ∙ omega arith

length-append : (xs ys : Text) → length (xs ++ ys) ≡ length xs + length ys
length-append [] ys = omega arith
length-append (x ∷ xs) ys = let h = length-append xs ys in omega arith

-- What a token leaves to read.
abbrev Advances : ℕ → Bool × Token × Tokenizer × Text → Type 0
Advances n (good, token, t, rest) = good ≡ true → suc (left t rest) ≤ n

-- Inside of a block, behind the blanks.
in_block_progress :
    (t : Tokenizer) (n : ℕ) (rest : Text)
    → t.inside_portmap_block ≡ true
    → t.put_back ≡ none
    → length rest ≤ n
    → Advances (2 * n) (first_token t rest)
in_block_progress t n [] block none_back h e = absurd (cc)
in_block_progress t n (c ∷ cs) block none_back h e =
    let fits = lex_progress t c cs block none_back in omega arith

-- Outside of blocks, from what the loops give.
outside_progress :
    (t : Tokenizer) (stream : Text) (found : Bool) (line : ℕ) (seen rest : Text)
    → t.put_back ≡ none
    → Copied t.current_line_number [] stream (found, line, seen, rest)
    → found || not (text_eq (content_of found seen) []) ≡ true
    → suc (
        left
          (record t { current_line_number = line; inside_portmap_block = found })
          (rest_of found rest))
      ≤ 2 * length stream + 1
outside_progress t stream true line seen rest none_back (text, lines, word, end) e =
    let split = take-drop 7 seen (text_eq→eq (take 7 seen) portmap_reversed (word refl)) in
    let long : length seen ≡ length (portmap_reversed ++ drop 7 seen) = ap length split in
    let whole = sym (length-reverse_aux seen rest) ∙ ap length text in rw none_back (omega arith)
outside_progress t stream false line [] rest none_back copied e = absurd (cc)
outside_progress t stream false line (c ∷ seen) rest none_back (text, lines, word, end) e =
    let whole = sym (length-reverse_aux (c ∷ seen) rest) ∙ ap length text in
    let none_left : length rest ≡ 0 = ap length (end refl) in rw none_back (omega arith)

inside_token_progress :
    (t : Tokenizer) (stream : Text)
    → t.inside_portmap_block ≡ true
    → t.put_back ≡ none
    → Advances (2 * length stream + 0 + 0) (inside_token t stream)
unfolding inside_token
inside_token_progress t stream block none_back =
    let (line, last, rest) = skip (blanks false) t.current_line_number t.last_char stream in
    let t' = record t { current_line_number = line; last_char = last } in
    let shorter = skip_shorter (blanks false) t.current_line_number t.last_char stream in
    λ good.
      (let fits = in_block_progress t' (length stream) rest block none_back shorter good in
        omega arith)

outside_token_progress :
    (t : Tokenizer) (stream : Text)
    → t.put_back ≡ none
    → Advances (2 * length stream + 1 + 0) (outside_token t stream)
unfolding outside_token
outside_token_progress t stream none_back =
    let (found, line, seen, rest) = outside main false t.current_line_number [] stream in
    let copied = outside-Copied main false t.current_line_number [] stream in
    λ good.
      (let fits = outside_progress t stream found line seen rest none_back copied good in
        omega arith)

-- A token that is returned leaves less to read than there was.
pub get_token_progress :
    (t : Tokenizer) (stream : Text)
    → (get_token t stream).0 ≡ true
    → suc (left (get_token t stream).2 (get_token t stream).3) ≤ left t stream
unfolding get_token
get_token_progress t stream = elim (Option-cases t.put_back) [
  | inr (token, e) ↦ rw e (λ good. omega arith)
  | inl e ↦ elim (Bool-cases t.inside_portmap_block) [
    | inl block ↦
        rw (e, block)
          (inside_token_progress (record t { inside_portmap_block = true; put_back = none }) stream
            refl refl)
    | inr out ↦
        rw (e, out)
          (outside_token_progress (record t { inside_portmap_block = false; put_back = none })
            stream refl)
  ]
]
