-- ===== src/Portmap/Parser/Pins.antt =====
-- What a pin block is when no error has been found.
use mathlib.Core.Path.{subst}
use avr_ha_lib.Prelude.{
  ℕ, suc, ◌≤◌, ◌≡◌, refl, sym, Bool, true, false, not, ◌&&◌, ◌||◌, ◌⊎◌, Option, none, some, ◌==◌,
  ltb, if◌then◌else◌, arith, inl,
}
use avr_ha_lib.Portmap.Text.{to_lower}
use avr_ha_lib.Portmap.Uc.{Controller, has_port, check_port, check_pin}
use avr_ha_lib.Portmap.Description.{PinBlock, Property}
use avr_ha_lib.Portmap.Tokenizer.{
  Token, right_brace, colon, semicolon, minus, equals, number, identifier,
}
use avr_ha_lib.Portmap.Parser.{is, is_keyword, atoi}
use avr_ha_lib.Portmap.Parser.Blocks.{
  one_letter, put_back_and, parse_end, parse_property_value, parse_property, first_char,
  controller_for, parse_pin, parse_last_pin, parse_range, parse_pins, bad_port, port_token,
  parse_port, parse_pin_block,
}
use avr_ha_lib.Portmap.Parser.Outcomes.{
  Sound, Ended, ends_then, ends_weaken, ends_return, ends_error_if, ends_put_back, ends_check_token,
  ends_token, ends_if, is_one,
}

pub ends_put_back_and :
    {A : Type 0} {k : Option Controller} {n n' : ℕ} {Q : A → Type 0} (t : Token) (a : A)
    → suc n ≤ n'
    → Q a
    → Sound k n n' Q (put_back_and t a)
ends_put_back_and t a le q = ends_then (ends_put_back t) (λ u. ends_return le (λ h. q))

pub ends_end :
    {A : Type 0} {k : Option Controller} {n n' : ℕ} {Q : A → Type 0} (a : A)
    → n ≤ n'
    → Q a
    → Sound k n n' Q (parse_end a)
ends_end {n} {n'} a le q = ends_token (λ m e t. ends_then (ends_check_token t semicolon) (λ ok.
    ends_if (is t right_brace || is_keyword t) (λ h. ends_put_back_and t a (omega arith) (λ c. q))
      (λ h. ends_return (omega arith) (λ c. q))))

-- A token that is not what is asked for is an error; so the early returns are errors.
ends_property_value :
    {k : Option Controller} {n : ℕ} (p : Property)
    → Sound k n n (λ p'. Unit) (parse_property_value p)
ends_property_value p = ends_token (λ m e t. ends_then (ends_error_if _) (λ u.
    ends_if (is t semicolon) (λ h. ends_return (omega arith) (λ c. tt))
      (λ h.
        ends_if (is t right_brace) (λ h'. ends_put_back_and t _ (omega arith) (λ c. tt))
          (λ h'. ends_end _ (omega arith) (λ c. tt)))))

pub ends_property :
    {k : Option Controller} {n : ℕ} (p : Property) → Sound k n n (λ p'. Unit) (parse_property p)
unfolding parse_property
ends_property p = ends_token (λ m e t. ends_then (ends_check_token t equals) (λ ok.
    ends_if (is t number || is t identifier)
      (λ h.
        ends_then (ends_put_back t)
          (λ u. ends_weaken (omega arith) (λ b a c d. tt) (ends_property_value p)))
      (λ h.
        ends_if (is t semicolon) (λ h'. ends_return (omega arith) (λ c. tt))
          (λ h'.
            ends_if (is t right_brace) (λ h''. ends_put_back_and t _ (omega arith) (λ c. tt))
              (λ h''. ends_weaken (omega arith) (λ b a c. tt) (ends_property_value p))))))

-- The numbers of a pin block are pins, and the last is not smaller than the first, or it is 0.
abbrev pub PinNumbers : PinBlock → Type 0
PinNumbers p =
    (p.first_pin ≤ 7) × (p.last_pin ≤ 7) × ((p.first_pin ≤ p.last_pin) ⊎ (p.last_pin ≡ 0))

check_pin_none : (n : ℕ) → check_pin n ≡ false → n ≤ 7
unfolding check_pin
check_pin_none n h = ground arith

ends_pin :
    {k : Option Controller} {n : ℕ} (t : Token)
    → Sound k n n (λ i. (is t number ≡ true) × (i ≤ 7)) (parse_pin t)
ends_pin t = ends_then (ends_check_token t number) (λ ok.
    ends_if ok
      (λ h.
        ends_then (ends_error_if (check_pin (atoi t.content)))
          (λ u. ends_return (omega arith) (λ c d. (d.1, check_pin_none (atoi t.content) c))))
      (λ h. ends_return (omega arith) (λ c. absurd (cc))))

-- What the rest of a pin block does to what has been read.
abbrev Filled : PinBlock → PinBlock → Type 0
Filled p p' = p.first_pin ≤ 7 → (p'.port ≡ p.port) × PinNumbers p'

range_right :
    (first last : ℕ)
    → not (last == 0) && not (first == 0) && ltb last first ≡ false
    → (first ≤ last) ⊎ (last ≡ 0)
range_right first last h = ground arith

ends_last_pin :
    {k : Option Controller} {n : ℕ} (p : PinBlock) → Sound k n n (Filled p) (parse_last_pin p)
ends_last_pin {k} {n} p = ends_token (λ m e t. ends_then (ends_pin t) (λ i.
    ends_then (ends_error_if _) (λ u.
      ends_if (is t semicolon)
        (λ h. ends_return (omega arith) (λ c d low. absurd (is_one t number semicolon refl d.0 h)))
        (λ h.
          ends_if (is t right_brace)
            (λ h'.
              ends_put_back_and t _ (omega arith)
                (λ c d low. absurd (is_one t number right_brace refl d.0 h')))
            (λ h'.
              ends_end _ (omega arith)
                (λ c d low. (refl, (low, d.1, range_right p.first_pin i c))))))))

ends_range : {k : Option Controller} {n : ℕ} (p : PinBlock) → Sound k n n (Filled p) (parse_range p)
ends_range p = ends_token (λ m e t. ends_then (ends_check_token t minus) (λ ok.
    ends_if (is t number)
      (λ h.
        ends_then (ends_put_back t)
          (λ u. ends_weaken (omega arith) (λ b a c d. a) (ends_last_pin p)))
      (λ h.
        ends_if (is t semicolon)
          (λ h'. ends_return (omega arith) (λ c. absurd (is_one t minus semicolon refl c.1 h')))
          (λ h'.
            ends_if (is t right_brace)
              (λ h''.
                ends_put_back_and t _ (omega arith)
                  (λ c. absurd (is_one t minus right_brace refl c.1 h'')))
              (λ h''. ends_weaken (omega arith) (λ b a c. a) (ends_last_pin p))))))

ends_pins :
    {k : Option Controller} {n : ℕ} (several : Bool) (p : PinBlock)
    → Sound k n n (λ p'. (p'.port ≡ p.port) × PinNumbers p') (parse_pins several p)
ends_pins several p = ends_token (λ m e t. ends_then (ends_pin t) (λ i.
    ends_if (is t semicolon)
      (λ h. ends_return (omega arith) (λ c. absurd (is_one t number semicolon refl c.0 h)))
      (λ h.
        ends_if (is t right_brace)
          (λ h'.
            ends_put_back_and t _ (omega arith)
              (λ c. absurd (is_one t number right_brace refl c.0 h')))
          (λ h'.
            ends_if several (λ all. ends_weaken (omega arith) (λ b a c. a c.1) (ends_range _))
              (λ one. ends_end _ (omega arith) (λ c. (refl, (c.1, c.1, inl (omega arith)))))))))

-- A pin block of the controller: the port is the lower case of a port character of it.
abbrev pub PinOf : Controller → PinBlock → Type 0
PinOf c p = ((d : ℕ) × (has_port d c.ports ≡ true) × (p.port ≡ to_lower d)) × PinNumbers p

-- The same, where there is a controller.
abbrev pub PinOfSome : Option Controller → PinBlock → Type 0
PinOfSome none p = Unit
PinOfSome (some c) p = PinOf c p

both_good : (a b r : Bool) → (if not a || not b then true else r) ≡ false → (a ≡ true) × (r ≡ false)
both_good true true r h = (refl, h)
both_good true false r h = absurd (cc)
both_good false b r h = absurd (cc)

not-false : (b : Bool) → not b ≡ false → b ≡ true
not-false true h = refl
not-false false h = absurd (cc)

good_port :
    (k : Option Controller) (t : Token) (p : PinBlock)
    → check_port (first_char t.content) k ≡ false
    → p.port ≡ to_lower (first_char t.content)
    → PinNumbers p
    → PinOfSome k p
unfolding check_port
good_port none t p h e numbers = tt
good_port (some c) t p h e numbers =
    ((first_char t.content, not-false (has_port (first_char t.content) c.ports) h, e), numbers)

ends_port_token :
    {j : Option Controller} {n : ℕ} (several : Bool) (k : Option Controller) (p : PinBlock)
    → Sound j n n (PinOfSome k) (port_token several k p)
ends_port_token several k p = ends_token (λ m e t. ends_then (ends_error_if (bad_port k t)) (λ u.
    let p' = record p { port = to_lower (first_char t.content) } in
    let good =
      both_good (is t identifier) (one_letter t.content) (check_port (first_char t.content) k) in
    let whole =
      λ (b : PinBlock) (a : (b.port ≡ to_lower (first_char t.content)) × PinNumbers b)
          (c : bad_port k t ≡ false).
        good_port k t b (good c).1 a.0 a.1 in
    ends_if (is t semicolon)
      (λ h.
        ends_return (omega arith) (λ c. absurd (is_one t identifier semicolon refl (good c).0 h)))
      (λ h.
        ends_if (is t number)
          (λ h'.
            ends_then (ends_put_back t)
              (λ u'. ends_weaken (omega arith) (λ b a d c. whole b a c) (ends_pins several p')))
          (λ h'.
            ends_if (is t right_brace)
              (λ h''.
                ends_put_back_and t p (omega arith)
                  (λ c. absurd (is_one t identifier right_brace refl (good c).0 h'')))
              (λ h''. ends_weaken (omega arith) whole (ends_pins several p'))))))

-- Where the port map has no controller, the command line's counts.
ends_port :
    {j : Option Controller} {n : ℕ} (several : Bool) (k : Option Controller) (p : PinBlock)
    → Sound j n n (PinOfSome (controller_for k j)) (parse_port several k p)
ends_port {j} {n} several k p = record {
  ended = λ s rest same.
      subst
        (λ c.
          Ended j s.parse_error_num n (PinOfSome (controller_for k j))
            (port_token several (controller_for k c) p s))
        (sym same)
        ((ends_port_token {j = j} {n = n} several (controller_for k j) p).ended s rest same);
}

pub ends_pin_block :
    {j : Option Controller} {n : ℕ} (several : Bool) (k : Option Controller) (p : PinBlock)
    → Sound j n n (PinOfSome (controller_for k j)) (parse_pin_block several k p)
unfolding parse_pin_block
ends_pin_block several k p = ends_token (λ m e t. ends_then (ends_check_token t colon) (λ ok.
    ends_if (is t identifier || is t number)
      (λ h.
        ends_then (ends_put_back t)
          (λ u. ends_weaken (omega arith) (λ b a c d. a) (ends_port several k p)))
      (λ h. ends_weaken (omega arith) (λ b a c. a) (ends_port several k p))))
