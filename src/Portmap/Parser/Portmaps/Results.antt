-- ===== src/Portmap/Parser/Portmaps/Results.antt =====
-- A whole file: the reading comes to an end, and what it gives without an error can be generated.
use mathlib.Core.Path.{subst}
use avr_ha_lib.Prelude.{
  List, some, ℕ, zero, suc, ◌+◌, ◌≤◌, ◌<◌, ◌≡◌, ◌≢◌, refl, Bool, true, false, arith, All, Option,
}
use avr_ha_lib.Portmap.Uc.{Controller}
use avr_ha_lib.Portmap.Description.{PinBlock}
use avr_ha_lib.Portmap.Tokenizer.{portmap_keyword, get_token}
use avr_ha_lib.Portmap.Tokenizer.Progress.{get_token_progress}
use avr_ha_lib.Portmap.Merge.{Part, Output, generate}
use avr_ha_lib.Portmap.Merge.Order.{Merged, IsWritten, Outputs, generate-Merged}
use avr_ha_lib.Portmap.Parser.{Parser, Run, Parse, done, exited, out_of_fuel, run_then, is}
use avr_ha_lib.Portmap.Parser.Outcomes.{Ended, remaining}
use avr_ha_lib.Portmap.Parser.Portmaps.{
  Parsed, parse_portmap_entry, copy_section, parse_loop, parse,
}
use avr_ha_lib.Portmap.Parser.Portmaps.Whole.{PortmapOk}
use avr_ha_lib.Portmap.Parser.Portmaps.Files.{ParsedOk, ok_copy, ends_entry}

-- The outcome of the loop: it does not run out of fuel, and what it gives without an error is right.
abbrev LoopEnded : Option Controller → ℕ → (Parsed → Type 0) → Run Parsed → Type 0
LoopEnded j before Q (done r s) = s.parse_error_num ≡ 0 → (before ≡ 0) × Q r
LoopEnded j before Q exited = Unit
LoopEnded j before Q out_of_fuel = ⊥

abbrev Right : Option Controller → Parsed → Type 0
Right j r = (k : ℕ) × ParsedOk j k r

loop_weaken :
    (j : Option Controller) (e e' : ℕ) (Q Q' : Parsed → Type 0) (r : Run Parsed)
    → (e' ≡ 0 → (e ≡ 0) × ((a : Parsed) → Q a → Q' a))
    → LoopEnded j e' Q r
    → LoopEnded j e Q' r
loop_weaken j e e' Q Q' (done r s) f h =
    λ none_found. (let (before, q) = h none_found in let (first, g) = f before in (first, g r q))
loop_weaken j e e' Q Q' exited f h = tt
loop_weaken j e e' Q Q' out_of_fuel f h = h

loop_then :
    (j : Option Controller) (e n : ℕ) (P : Parsed → Type 0) (Q : Parsed → Parsed → Type 0)
    (Q' : Parsed → Type 0) (r : Run Parsed) (f : Parsed → Parse Parsed)
    → Ended j e n P r
    → ((a : Parsed) → P a → (b : Parsed) → Q a b → Q' b)
    → ((a : Parsed) (s : Parser)
        → remaining s ≤ n
        → s.target_controller ≡ j
        → LoopEnded j s.parse_error_num (Q a) (f a s))
    → LoopEnded j e Q' (run_then r f)
loop_then j e n P Q Q' (done a s) f (rest, same, clean) g h =
    loop_weaken j e s.parse_error_num (Q a) Q' (f a s)
      (λ e'. (let (before, p) = clean e' in (before, g a p))) (h a s rest same)
loop_then j e n P Q Q' exited f k g h = tt
loop_then j e n P Q Q' out_of_fuel f k g h = absurd k

-- The end of the file, the keyword, and text to copy.
loop_branch :
    (P : Run Parsed → Type 0) (good keyword : Bool) {x y z : Run Parsed}
    → P x
    → (good ≡ true → P y)
    → (good ≡ true → P z)
    → P (elim good [ false ↦ x | true ↦ elim keyword [ true ↦ y | false ↦ z ] ])
loop_branch P false keyword p q r = p
loop_branch P true true p q r = q refl
loop_branch P true false p q r = r refl

ends_loop :
    (j : Option Controller) (f n : ℕ) (fresh : PinBlock) (k : ℕ) (r : Parsed) (s : Parser)
    → n < f
    → remaining s ≤ n
    → s.target_controller ≡ j
    → LoopEnded j s.parse_error_num (λ r'. ParsedOk j k r → Right j r') (parse_loop f fresh k r s)
unfolding parse_loop
ends_loop j zero n fresh k r s h rest same = absurd (omega arith)
ends_loop j (suc f) n fresh k r s h rest same =
    let (good, token, t, rest') = get_token s.tokenizer s.stream in
    let s' = record s { tokenizer = t; stream = rest' } in
    loop_branch (LoopEnded j s.parse_error_num (λ r'. ParsedOk j k r → Right j r')) good
      (is token portmap_keyword) (λ e'. (e', λ ok. (k, ok)))
      (λ e.
        let progress = get_token_progress s.tokenizer s.stream e in
        loop_then j s.parse_error_num (remaining s') (λ a. ParsedOk j k r → ParsedOk j (k + 1) a)
          (λ a b. ParsedOk j (k + 1) a → Right j b) (λ b. ParsedOk j k r → Right j b)
          (parse_portmap_entry f fresh k r s') (parse_loop f fresh (k + 1))
          ((ends_entry {j = j} f (remaining s') fresh k r (omega arith)).ended s' (omega arith)
            same)
          (λ a p b q ok. q (p ok))
          (λ a s'' less same'.
            ends_loop j f (remaining s') fresh (k + 1) a s'' (omega arith) less same'))
      (λ e.
        let progress = get_token_progress s.tokenizer s.stream e in
        loop_weaken j s.parse_error_num s.parse_error_num
          (λ b. ParsedOk j (k + 1) (copy_section k token.content r) → Right j b)
          (λ b. ParsedOk j k r → Right j b)
          (parse_loop f fresh (k + 1) (copy_section k token.content r) s')
          (λ e''. (e'', λ b q ok. q (ok_copy j k token.content r ok)))
          (ends_loop j f (remaining s') fresh (k + 1) _ s' (omega arith) (omega arith) same))

parse_ends :
    (f : ℕ) (fresh : PinBlock) (s : Parser)
    → remaining s < f
    → LoopEnded s.target_controller 0 (Right s.target_controller) (parse f fresh s)
unfolding parse
parse_ends f fresh s h =
    loop_weaken s.target_controller 0 0 _ (Right s.target_controller) _
      (λ e. (e, λ b q. q (tt, (tt, tt), (tt, tt))))
      (ends_loop s.target_controller f (remaining s) fresh 0 _ _ h (omega arith) refl)

-- If there are more rounds than twice the characters of the file and what the tokenizer has still to
-- give, the parser comes to an end: it returns, or exits with an error.
pub parse-terminates :
    (f : ℕ) (fresh : PinBlock) (s : Parser) → remaining s < f → parse f fresh s ≢ out_of_fuel
parse-terminates f fresh s h e =
    subst (LoopEnded s.target_controller 0 (Right s.target_controller)) e (parse_ends f fresh s h)

-- With enough rounds, if the parser returns and has counted no error, then every port map has a
-- controller, its own or the command line's; each of its pin blocks has a port that is the lower case
-- of one of the controller's port characters, and pins from 0 to 7, the last not before the first or
-- 0; no two of its pin blocks have a pin of a port in common; and its virtual ports are made of its
-- pin blocks.
pub parse-PortmapOk :
    (f : ℕ) (fresh : PinBlock) (s s' : Parser) (r : Parsed)
    → remaining s < f
    → parse f fresh s ≡ done r s'
    → s'.parse_error_num ≡ 0
    → All (PortmapOk s.target_controller) r.portmaps
parse-PortmapOk f fresh s s' r h e none_found =
    (subst (LoopEnded s.target_controller 0 (Right s.target_controller)) e (parse_ends f fresh s h)
      none_found).1.1.0

-- With enough rounds, if the parser returns and has counted no error, and `generatePortmap` neither
-- fails an assertion nor runs behind the end of a list on any port map that was read, the generator
-- comes to its end and has written, one after another, what `generatePortmap` writes for each of these
-- port maps and the text of each copied section, all of them and no others, with sequence numbers that
-- do not fall.
pub parse-generate :
    (f : ℕ) (fresh : PinBlock) (s s' : Parser) (r : Parsed)
    → remaining s < f
    → parse f fresh s ≡ done r s'
    → s'.parse_error_num ≡ 0
    → All (IsWritten s.target_controller) r.portmaps
    → (xs : List Part) × (os : List Output) × Merged 0 r.portmaps r.copy_sections xs
      × (generate s.target_controller r.portmaps r.copy_sections ≡ some os)
      × Outputs s.target_controller xs os
parse-generate f fresh s s' r h e none_found written =
    let ended =
      subst (LoopEnded s.target_controller 0 (Right s.target_controller)) e (parse_ends f fresh s h)
        none_found in
    let (all, ps, cs) = ended.1.1 in
    generate-Merged s.target_controller r.portmaps r.copy_sections ps.0 cs.0 written
