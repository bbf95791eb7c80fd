-- ===== src/Portmap/Parser/Outcomes.antt =====
-- How the parser's parts end: within the rounds given to the loops, and without an error only if what
-- they give is right.
use avr_ha_lib.Prelude.{
  ℕ, zero, suc, ◌+◌, ◌≤◌, ◌≡◌, refl, Bool, true, false, ◌||◌, Option, some, List, ◌==◌, leb,
  if◌then◌else◌, arith, if_both, if_cases,
}
use avr_ha_lib.Portmap.Text.{Text}
use avr_ha_lib.Portmap.Uc.{Controller}
use avr_ha_lib.Portmap.Tokenizer.{TokenType, Token, Tokenizer, get_token, put_back_token}
use avr_ha_lib.Portmap.Tokenizer.Progress.{left, get_token_progress}
use avr_ha_lib.Portmap.Parser.{
  Parser, Run, Parse, done, exited, out_of_fuel, run_then, ◌>>=◌, return, type_number, is, error_if,
  parse_error, get_needed_token, put_back, check_token, check_identifier_unique, in_texts,
}

-- What is left to read.
abbrev pub remaining : Parser → ℕ
remaining s = left s.tokenizer s.stream

-- A run does not run out of fuel; if it comes back, at most `n` is left to read, the controller is `k`,
-- and if it comes back without an error, there was none before, and the value has the property.
abbrev pub Ended : {A : Type 0} → Option Controller → ℕ → ℕ → (A → Type 0) → Run A → Type 0
Ended k before n Q (done a s) =
    (remaining s ≤ n) × (s.target_controller ≡ k) × (s.parse_error_num ≡ 0 → (before ≡ 0) × Q a)
Ended k before n Q exited = Unit
Ended k before n Q out_of_fuel = ⊥

-- A part that starts with at most `n` left to read ends so with at most `n'`.
pub record Sound {A : Type 0} (k : Option Controller) (n n' : ℕ) (Q : A → Type 0) (m : Parse A)
    : Type 0 where
  pub ended :
      (s : Parser)
      → remaining s ≤ n
      → s.target_controller ≡ k
      → Ended k s.parse_error_num n' Q (m s)

merge-Ended :
    {B : Type 0} (k : Option Controller) (e e' n : ℕ) (P : Type 0) (Q : B → Type 0) (r : Run B)
    → (e' ≡ 0 → (e ≡ 0) × P)
    → Ended k e' n (λ b. P → Q b) r
    → Ended k e n Q r
merge-Ended k e e' n P Q (done b s) before (rest, same, clean) = (
  rest,
  same,
  λ none_found.
      (let (none_before, q) = clean none_found in
        let (none_first, p) = before none_before in (none_first, q p)),
)
merge-Ended k e e' n P Q exited before h = tt
merge-Ended k e e' n P Q out_of_fuel before h = h

run-Ended :
    {A B : Type 0} (k : Option Controller) (e n n' : ℕ) (Q : A → Type 0) (Q' : B → Type 0)
    (r : Run A) (f : A → Parse B)
    → Ended k e n Q r
    → ((a : A) → Sound k n n' (λ b. Q a → Q' b) (f a))
    → Ended k e n' Q' (run_then r f)
run-Ended k e n n' Q Q' (done a s) f (rest, same, clean) g =
    merge-Ended k e s.parse_error_num n' (Q a) Q' (f a s) clean ((g a).ended s rest same)
run-Ended k e n n' Q Q' exited f h g = tt
run-Ended k e n n' Q Q' out_of_fuel f h g = absurd h

-- One part behind another, which may use what the first one gives.
pub ends_then :
    {A B : Type 0} {k : Option Controller} {n n' n'' : ℕ} {Q : A → Type 0} {Q' : B → Type 0}
    {m : Parse A} {f : A → Parse B}
    → Sound k n n' Q m
    → ((a : A) → Sound k n' n'' (λ b. Q a → Q' b) (f a))
    → Sound k n n'' Q' (m >>= f)
ends_then {k} {n} {n'} {n''} {Q} {Q'} {m} {f} h g = record {
  ended = λ s rest same. run-Ended k s.parse_error_num n' n'' Q Q' (m s) f (h.ended s rest same) g;
}

weaken-Ended :
    {A : Type 0} (k : Option Controller) (e n n' : ℕ) (Q Q' : A → Type 0) (r : Run A)
    → n ≤ n'
    → ((a : A) → Q a → Q' a)
    → Ended k e n Q r
    → Ended k e n' Q' r
weaken-Ended k e n n' Q Q' (done a s) h f (rest, same, clean) =
    (omega arith, same, λ none_found. ((clean none_found).0, f a (clean none_found).1))
weaken-Ended k e n n' Q Q' exited h f ended = tt
weaken-Ended k e n n' Q Q' out_of_fuel h f ended = ended

pub ends_weaken :
    {A : Type 0} {k : Option Controller} {n n' n'' : ℕ} {Q Q' : A → Type 0} {m : Parse A}
    → n' ≤ n''
    → ((a : A) → Q a → Q' a)
    → Sound k n n' Q m
    → Sound k n n'' Q' m
ends_weaken {k} {n} {n'} {n''} {Q} {Q'} {m} le f h = record {
  ended =
      λ s rest same. weaken-Ended k s.parse_error_num n' n'' Q Q' (m s) le f (h.ended s rest same);
}

pub ends_return :
    {A : Type 0} {k : Option Controller} {n n' : ℕ} {Q : A → Type 0} {a : A}
    → n ≤ n'
    → Q a
    → Sound k n n' Q (return a)
ends_return h q = record { ended = λ s rest same. (omega arith, same, λ e. (e, q)) }

pub ends_error :
    {k : Option Controller} {n : ℕ} {Q : Unit → Type 0} (fatal : Bool)
    → Sound k n n Q (parse_error fatal)
unfolding parse_error
ends_error {k} {n} {Q} fatal = record {
  ended = λ s rest same.
      if_both (Ended k s.parse_error_num n Q) (leb 10 (s.parse_error_num + 1) || fatal) tt
        (rest, same, λ e. absurd (omega arith));
}

pub ends_error_if :
    {k : Option Controller} {n : ℕ} (b : Bool) → Sound k n n (λ u. b ≡ false) (error_if b)
ends_error_if true = ends_error false
ends_error_if false = ends_return (omega arith) refl

pub fatal_exits : (s : Parser) → parse_error true s ≡ exited
unfolding parse_error
fatal_exits s =
    if_cases (λ (r : Run Unit). r ≡ exited) (leb 10 (s.parse_error_num + 1) || true) (λ e. refl)
      (λ e. absurd (grind arith))

pub ends_get : {k : Option Controller} {n : ℕ} → Sound k (suc n) n (λ t. Unit) get_needed_token
unfolding get_needed_token
ends_get {k} {n} = record {
  ended = λ s rest same.
      if_cases (Ended k s.parse_error_num n (λ t. Unit)) (get_token s.tokenizer s.stream).0
        (λ good.
          (let progress = get_token_progress s.tokenizer s.stream good in
            (omega arith, same, λ e. (e, tt))))
        (λ bad.
          rw
            (fatal_exits (record s {
              tokenizer = (get_token s.tokenizer s.stream).2;
              stream = (get_token s.tokenizer s.stream).3;
            }))
            tt);
}

put_back_left :
    {n : ℕ} (t : Tokenizer) (stream : Text) (token : Token)
    → left t stream ≤ n
    → left (record t { put_back = some token }) stream ≤ suc n
put_back_left t stream token h = omega arith

pub ends_put_back :
    {k : Option Controller} {n : ℕ} (t : Token) → Sound k n (suc n) (λ u. Unit) (put_back t)
unfolding put_back put_back_token
ends_put_back t = record {
  ended = λ s rest same. (put_back_left s.tokenizer s.stream t rest, same, λ e. (e, tt));
}

pub ends_check_token :
    {k : Option Controller} {n : ℕ} (t : Token) (c : TokenType)
    → Sound k n n (λ ok. (ok ≡ true) × (is t c ≡ true)) (check_token t c)
unfolding check_token
ends_check_token {k} {n} t c =
    if_cases (Sound k n n (λ ok. (ok ≡ true) × (is t c ≡ true))) (is t c)
      (λ e. ends_return (omega arith) (refl, e))
      (λ e.
        ends_then (ends_error {Q = λ u. ⊥} false) (λ u. ends_return (omega arith) (λ h. absurd h)))

pub ends_unique :
    {k : Option Controller} {n : ℕ} (xs : List Text) (id : Text)
    → Sound k n n (λ ok. (ok ≡ true) × (in_texts id xs ≡ false)) (check_identifier_unique xs id)
unfolding check_identifier_unique
ends_unique {k} {n} xs id =
    if_cases (Sound k n n (λ ok. (ok ≡ true) × (in_texts id xs ≡ false))) (in_texts id xs)
      (λ e.
        ends_then (ends_error {Q = λ u. ⊥} false) (λ u. ends_return (omega arith) (λ h. absurd h)))
      (λ e. ends_return (omega arith) (refl, e))

no_token : (s : Parser) → remaining s ≤ 0 → get_needed_token s ≡ exited
unfolding get_needed_token
no_token s rest =
    if_cases (λ (r : Run Token). r ≡ exited) (get_token s.tokenizer s.stream).0
      (λ good.
        (let progress = get_token_progress s.tokenizer s.stream good in absurd (omega arith)))
      (λ bad.
        rw
          (fatal_exits (record s {
            tokenizer = (get_token s.tokenizer s.stream).2;
            stream = (get_token s.tokenizer s.stream).3;
          }))
          refl)

-- A token is read; if nothing is left, there is none.
pub ends_token :
    {A : Type 0} {k : Option Controller} {n n' : ℕ} {Q : A → Type 0} {f : Token → Parse A}
    → ((m : ℕ) → n ≡ suc m → (t : Token) → Sound k m n' Q (f t))
    → Sound k n n' Q (get_needed_token >>= f)
ends_token {n = zero} {f} g = record { ended = λ s rest same. rw (no_token s rest) tt }
ends_token {n = suc n} {f} g =
    ends_then ends_get (λ t. ends_weaken (omega arith) (λ a h u. h) (g n refl t))

pub ends_if :
    {A : Type 0} {k : Option Controller} {n n' : ℕ} {Q : A → Type 0} (b : Bool) {x y : Parse A}
    → (b ≡ true → Sound k n n' Q x)
    → (b ≡ false → Sound k n n' Q y)
    → Sound k n n' Q (if b then x else y)
ends_if true f g = f refl
ends_if false f g = g refl

-- A token is not of two types.
pub is_one :
    (t : Token) (a b : TokenType)
    → (type_number a == type_number b) ≡ false
    → is t a ≡ true
    → is t b ≡ true
    → ⊥
is_one t a b differ h h' = absurd (ground arith)
