-- ===== src/Portmap/Tokenizer/Copying.antt =====
-- Outside of blocks the text is copied.
use mathlib.Core.List.{reverse_aux}
use avr_ha_lib.Prelude.{
  ℕ, zero, suc, ◌+◌, ◌≡◌, refl, sym, ap, ◌∙◌, Bool, true, false, ◌&&◌, ◌⊎◌, none, [], ◌∷◌, ◌++◌,
  ◌==◌, if◌then◌else◌, take, drop, arith, ==_iff, Bool-cases, inl, inr,
}
use avr_ha_lib.Portmap.Text.{Text, codes, text_eq}
use avr_ha_lib.Portmap.Tokenizer.{
  Tokenizer, Loop, main, line_comment, block_comment, quotation, Next, go_on, keyword,
  portmap_reversed, outside_step, next_line, outside, content_of, rest_of, outside_token, get_token,
}

pub text_eq→eq : (xs ys : Text) → text_eq xs ys ≡ true → xs ≡ ys
text_eq→eq [] [] h = refl
text_eq→eq [] (y ∷ ys) h = absurd (cc)
text_eq→eq (x ∷ xs) [] h = absurd (cc)
text_eq→eq (x ∷ xs) (y ∷ ys) h = elim (Bool-cases (x == y)) [
  | inl e ↦ let rest = text_eq→eq xs ys (rw e at h) in rw ((==_iff x y).0 e, rest) refl
  | inr e ↦ absurd (cc (rw e at h))
]

-- The line ends of a text.
abbrev pub newlines : Text → ℕ
newlines [] = 0
newlines (c ∷ cs) = (if c == b'\n' then 1 else 0) + newlines cs

newlines-reverse_aux : (xs ys : Text) → newlines (reverse_aux xs ys) ≡ newlines xs + newlines ys
newlines-reverse_aux [] ys = omega arith
newlines-reverse_aux (x ∷ xs) ys = newlines-reverse_aux xs (x ∷ ys) ∙ omega arith

reverse_aux_append : (xs ys zs : Text) → reverse_aux xs ys ++ zs ≡ reverse_aux xs (ys ++ zs)
reverse_aux_append [] ys zs = refl
reverse_aux_append (x ∷ xs) ys zs = reverse_aux_append xs (x ∷ ys) zs

-- The loops read the text `stream` behind `seen` at the line `line`.
abbrev pub Copied : ℕ → Text → Text → Bool × ℕ × Text × Text → Type 0
Copied line seen stream (found, line', seen', rest) =
    (reverse_aux seen' rest ≡ reverse_aux seen stream)
    × (line' + newlines seen ≡ line + newlines seen')
    × (found ≡ true → text_eq (take 7 seen') portmap_reversed ≡ true)
    × (found ≡ false → rest ≡ [])

step-keyword :
    (loop : Loop) (started : Bool) (c : ℕ) (seen : Text)
    → outside_step loop started c seen ≡ keyword
    → text_eq (take 7 seen) portmap_reversed ≡ true
unfolding outside_step
step-keyword main started c seen h = ground arith
step-keyword line_comment started c seen h = ground arith
step-keyword block_comment started c seen h = ground arith
step-keyword quotation started c seen h = ground arith

step-line :
    (c line : ℕ) (seen : Text) → next_line c line + newlines seen ≡ line + newlines (c ∷ seen)
step-line c line seen = grind arith

keyword_line : (c : ℕ) (b : Bool) → (c == b'p') && b ≡ true → newlines (c ∷ []) ≡ 0
keyword_line c b h = ground arith

Next-cases : (n : Next) → (n ≡ keyword) ⊎ ((l : Loop) × (b : Bool) × (n ≡ go_on l b))
Next-cases keyword = inl refl
Next-cases (go_on l b) = inr (l, b, refl)

-- The loops copy, whatever they read.
pub outside-Copied :
    (loop : Loop) (started : Bool) (line : ℕ) (seen stream : Text)
    → Copied line seen stream (outside loop started line seen stream)
unfolding outside
outside-Copied loop started line seen [] = (refl, refl, λ e. absurd (cc), λ e. refl)
outside-Copied loop started line seen (c ∷ cs) =
    elim (Next-cases (outside_step loop started c (c ∷ seen))) [
      | inl e ↦
          rw (e, outside)
            (
              refl,
              (let no_line = keyword_line c _ (step-keyword loop started c (c ∷ seen) e) in
                  omega arith),
              λ h. step-keyword loop started c (c ∷ seen) e,
              λ h. absurd (cc),
            )
      | inr (loop', started', e) ↦
          let (text, lines, found, rest) =
            outside-Copied loop' started' (next_line c line) (c ∷ seen) cs in
          rw (e, outside) (text, (let one = step-line c line seen in omega arith), found, rest)
    ]

pub take-drop : (n : ℕ) (xs : Text) {ys : Text} → take n xs ≡ ys → xs ≡ ys ++ drop n xs
take-drop zero xs e = rw (sym e) refl
take-drop (suc n) [] e = rw (sym e) refl
take-drop (suc n) (x ∷ xs) e = rw (sym e) (ap (◌∷◌ x) (take-drop n xs refl))

result-copies :
    (line : ℕ) (stream : Text) (found : Bool) (line' : ℕ) (seen rest : Text)
    → Copied line [] stream (found, line', seen, rest)
    → (content_of found seen ++ rest_of found rest ≡ stream)
      × (line' ≡ line + newlines (content_of found seen))
      × ((after : Text) × (rest_of found rest ≡ (if found then codes "portmap" ++ after else [])))
result-copies line stream false line' seen rest (text, lines, word, end) = (
  reverse_aux_append seen [] rest ∙ text,
  (let count = newlines-reverse_aux seen [] in omega arith),
  ([], end refl),
)
result-copies line stream true line' seen rest (text, lines, word, end) =
    let split = take-drop 7 seen (text_eq→eq (take 7 seen) portmap_reversed (word refl)) in
    (
      reverse_aux_append (drop 7 seen) [] (codes "portmap" ++ rest)
          ∙ sym (ap (λ z. reverse_aux z rest) split)
          ∙ text,
      (let count = newlines-reverse_aux (drop 7 seen) [] in
          let same : newlines seen ≡ newlines (portmap_reversed ++ drop 7 seen) =
            ap newlines split in
          omega arith),
      (rest, refl),
    )

-- `getToken` outside of blocks, up to a keyword or the end: what is returned and what is left are the
-- text that was there, the line number counts the line ends in what is returned, and the keyword is the
-- first of what is left if the tokenizer is in a block afterwards; if not, nothing is left.
pub get_token-copies :
    (t : Tokenizer) (stream : Text)
    → t.put_back ≡ none
    → t.inside_portmap_block ≡ false
    → let (good, token, t', rest) = get_token t stream in
      (token.content ++ rest ≡ stream)
      × (t'.current_line_number ≡ t.current_line_number + newlines token.content)
      × ((after : Text) × (rest
            ≡ (if t'.inside_portmap_block then codes "portmap" ++ after else [])))
unfolding get_token outside_token
get_token-copies t stream none_back out =
    let (found, line, seen, rest) = outside main false t.current_line_number [] stream in
    rw (none_back, out)
      (result-copies t.current_line_number stream found line seen rest
        (outside-Copied main false t.current_line_number [] stream))
