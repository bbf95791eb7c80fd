-- ===== src/Shumway/CanDriver/Transfer.antt =====
-- `send` of the CAN driver: what stands in the registers of the MOb when it transmits.
use mathlib.Core.Path.{ap₂}
use avr_ha_lib.Prelude.{
  ℕ, ◌+◌, ◌*◌, ◌/◌, ◌%◌, ◌^◌, ◌≤◌, ◌<◌, ◌≡◌, refl, ap, ◌∙◌, ◌⊎◌, inl, inr, Bool, true, false, List,
  [], ◌∷◌, ◌==◌, if◌then◌else◌, length, arith, if_cases, if_both, ℕ_discrete,
}
use avr_ha_lib.Shumway.CanDriver.{
  Mob, Can, Cmd, modify, next_page, write_canmsg, select_mob, is_extended_id, set_can_id,
  get_can_id, set_dlc, get_dlc, enable_tx, re_enable_tx, write_bytes, send, read_bytes, mob_num,
}

-- An identifier that the registers of a MOb can hold: 29 bits for an extended one; 11 bits for a standard
-- one, while the MOb is not set to extended ones.
abbrev pub Encodes : ℕ → Bool → Mob → Type 0
Encodes id ide m =
    ((ide ≡ true) × (id < 2 ^ 29)) ⊎ ((ide ≡ false) × (id < 2 ^ 11) × (is_extended_id m ≡ false))

-- The identifier, and its kind, are read back.
get_can_id-set_can_id :
    (id : ℕ) (ide : Bool) (m : Mob)
    → Encodes id ide m
    → (get_can_id (set_can_id id ide m) ≡ id) × (is_extended_id (set_can_id id ide m) ≡ ide)
unfolding set_can_id get_can_id
get_can_id-set_can_id id true m (inl (e, lt)) =
    let m' = set_can_id id true m in
    let set : is_extended_id m' ≡ true = ground arith in
    (if_cases (λ v. v ≡ id) (is_extended_id m') (λ _. omega (arith, lt)) (λ h. absurd (cc)), set)
get_can_id-set_can_id id true m (inr (e, lt, std)) = absurd (cc)
get_can_id-set_can_id id false m (inl (e, lt)) = absurd (cc)
get_can_id-set_can_id id false m (inr (e, lt, std)) =
    let m' = set_can_id id false m in
    (if_cases (λ v. v ≡ id) (is_extended_id m') (λ h. absurd (cc)) (λ _. omega (arith, lt)), std)

-- Data bytes from the index `j` on.
abbrev put : ℕ → List ℕ → (ℕ → ℕ) → ℕ → ℕ
put j [] m = m
put j (b ∷ bs) m = put (j + 1) bs (λ i. if i == j then b else m i)

put_below : (j i : ℕ) (bs : List ℕ) (m : ℕ → ℕ) → i < j → put j bs m i ≡ m i
put_below j i [] m lt = refl
put_below j i (b ∷ bs) m lt =
    put_below (j + 1) i bs (λ k. if k == j then b else m k) (omega arith) ∙ ground arith

-- What is written is read back.
read_bytes-put :
    (bs : List ℕ) (j page : ℕ) (m : Mob) (canmsg : ℕ → ℕ)
    → j + length bs ≤ 8
    → page % 8 ≡ j % 8
    → read_bytes (length bs) page (record m { canmsg = put j bs canmsg }) ≡ bs
unfolding read_bytes
read_bytes-put [] j page m canmsg lim at = refl
read_bytes-put (b ∷ bs) j page m canmsg lim at =
    let f : ℕ → ℕ = λ i. if i == j then b else canmsg i in
    let here : page % 8 ≡ j = omega (arith, at, lim) in
    ap₂ ◌∷◌ (ap (put (j + 1) bs f) here ∙ put_below (j + 1) j bs f (omega arith) ∙ ground arith)
      (read_bytes-put bs (j + 1) (next_page page) m f (omega (arith, lim)) (omega (arith, at)))

put_more :
    (c : Bool) (j b : ℕ) (bs : List ℕ) (m : Mob)
    → (let v = if c then record m { canmsg = λ x. if x == j then b else m.canmsg x } else m in
        if c then record v { canmsg = put (j + 1) bs v.canmsg } else v)
      ≡ (if c then record m { canmsg = put j (b ∷ bs) m.canmsg } else m)
put_more true j b bs m = refl
put_more false j b bs m = refl

write_bytes-put :
    (bs : List ℕ) (j k i : ℕ) (s : Can)
    → s.canpage / 16 ≡ k
    → s.canpage % 8 ≡ j % 8
    → j + length bs ≤ 8
    → ((write_bytes bs s).canpage / 16 ≡ k)
      × ((write_bytes bs s).mobs i ≡ (
          if i == k then record (s.mobs i) { canmsg = put j bs (s.mobs i).canmsg } else s.mobs i))
unfolding write_bytes write_canmsg
write_bytes-put [] j k i s page at lim = (page, if_both (λ r. s.mobs i ≡ r) (i == k) refl refl)
write_bytes-put (b ∷ bs) j k i s page at lim =
    let s' = write_canmsg b s in
    let here : s.canpage % 8 ≡ j = omega (arith, at, lim) in
    let written = λ (c : Bool) (q : ℕ).
      if c
      then record (s.mobs i) { canmsg = λ x. if x == q then b else (s.mobs i).canmsg x }
      else s.mobs i in
    let this : s'.mobs i ≡ written (i == k) j = ap₂ (λ p q. written (i == p) q) page here in
    let (page', rest) =
      write_bytes-put bs (j + 1) k i s' (omega (arith, page)) (omega (arith, at))
        (omega (arith, lim)) in
    (
      page',
      rest
          ∙ ap (λ (v : Mob). if i == k then record v { canmsg = put (j + 1) bs v.canmsg } else v)
              this
          ∙ put_more (i == k) j b bs (s.mobs i),
    )

-- The length of the data and the request to transmit.
abbrev request : ℕ → Mob → Mob
request n m = enable_tx (set_dlc n m)

request_kept :
    (n : ℕ) (m : Mob)
    → n ≤ 8
    → (is_extended_id (request n m) ≡ is_extended_id m)
      × (get_dlc (request n m) ≡ n)
      × ((request n m).cancdmob / 2 ^ 6 % 2 ≡ 1)
request_kept n m h = (ground arith, ground arith, ground arith)

request-get_can_id : (n : ℕ) (m : Mob) → n ≤ 8 → get_can_id (request n m) ≡ get_can_id m
unfolding get_can_id
request-get_can_id n m h =
    ap
      (λ b.
        if b
        then (m.canidt1 * 2 ^ 24 + m.canidt2 * 2 ^ 16 + m.canidt3 * 2 ^ 8 + m.canidt4) / 2 ^ 3
        else (m.canidt1 * 2 ^ 8 + m.canidt2) / 2 ^ 5)
      (request_kept n m h).0

with_bytes-get_can_id :
    (m : Mob) (canmsg : ℕ → ℕ) → get_can_id (record m { canmsg = canmsg }) ≡ get_can_id m
unfolding get_can_id
with_bytes-get_can_id m canmsg = refl

-- A test that is made again has the same result.
pub if_again {ℓ} :
    {A : Type ℓ} (f g : A → A) (c : Bool) (v : A)
    → (let u = if c then f v else v in if c then g u else u) ≡ (if c then g (f v) else v)
if_again f g true v = refl
if_again f g false v = refl

if_inner {ℓ} :
    {A : Type ℓ} (g : A → A) (c : Bool) (u v : A)
    → (let x = if c then u else v in if c then g x else x) ≡ (if c then g u else v)
if_inner g true u v = refl
if_inner g false u v = refl

at_index {ℓ} :
    {A : Type ℓ} (f : ℕ → A) (d : A) (i k : ℕ)
    → (if i == k then f i else d) ≡ (if i == k then f k else d)
at_index f d i k = elim (ℕ_discrete i k) [
  | yes e ↦ ap (λ j. if i == k then f j else d) e
  | no e ↦ let apart : (i == k) ≡ false = ground arith in rw apart refl
]

module _ (cmd : Cmd) (s : Can) (real : cmd.mob_id < mob_num) (eight : length cmd.bytes ≤ 8) where
  abbrev n : ℕ
  n = length cmd.bytes

  -- The registers with the identifier and the data.
  abbrev loaded : Mob
  loaded =
      let m = set_can_id cmd.id cmd.ide (s.mobs cmd.mob_id) in
      record m { canmsg = put 0 cmd.bytes m.canmsg }

  abbrev addressed : Can
  addressed = modify (set_can_id cmd.id cmd.ide) (select_mob cmd.mob_id s)

  abbrev written : Can
  written = write_bytes cmd.bytes addressed

  selected : addressed.canpage / 16 ≡ cmd.mob_id
  selected = omega (arith, real)

  at_start : addressed.canpage % 8 ≡ 0 % 8
  at_start = omega (arith, real)

  written_page : written.canpage / 16 ≡ cmd.mob_id
  written_page =
      (write_bytes-put cmd.bytes 0 cmd.mob_id 0 addressed selected at_start
        (omega (arith, eight))).0

  written_mobs : (i : ℕ) → written.mobs i ≡ (if i == cmd.mob_id then loaded else s.mobs i)
  written_mobs i =
      let k = cmd.mob_id in
      let set = set_can_id cmd.id cmd.ide in
      let fill : Mob → Mob = λ m. record m { canmsg = put 0 cmd.bytes m.canmsg } in
      let all =
        write_bytes-put cmd.bytes 0 k i addressed selected at_start (omega (arith, eight)) in
      all.1
      ∙ ap
          (λ q. let u = if i == q then set (s.mobs i) else s.mobs i in if i == k then fill u else u)
          selected
      ∙ if_again set fill (i == k) (s.mobs i)
      ∙ at_index (λ j. fill (set (s.mobs j))) (s.mobs i) i k

  send_lem : (send cmd s).0 ≡ request n loaded
  unfolding send
  send_lem =
      let p = written.canpage / 16 in
      let here : written.mobs cmd.mob_id ≡ loaded =
        written_mobs cmd.mob_id
        ∙ if_cases (λ v. v ≡ loaded) (cmd.mob_id == cmd.mob_id) (λ _. refl)
            (λ h. absurd (ground arith)) in
      if_cases (λ v. v ≡ request n loaded) (p == p)
        (λ _. ap (λ q. request n (written.mobs q)) written_page ∙ ap (request n) here)
        (λ h. absurd (ground arith))

  send_after :
      (i : ℕ)
      → (send cmd s).1.mobs i
        ≡ (if i == cmd.mob_id then re_enable_tx (request n loaded) else s.mobs i)
  unfolding send
  send_after i =
      let k = cmd.mob_id in
      let p = written.canpage / 16 in
      if_again (request n) re_enable_tx (i == p) (written.mobs i)
      ∙ ap (λ q. if i == q then re_enable_tx (request n (written.mobs i)) else written.mobs i)
          written_page
      ∙ ap (λ v. if i == k then re_enable_tx (request n v) else v) (written_mobs i)
      ∙ if_inner (λ v. re_enable_tx (request n v)) (i == k) loaded (s.mobs i)

  -- A command for one of the 15 MObs, with at most 8 data bytes and an identifier that the MOb's
  -- registers can hold: 29 bits if it is extended, or 11 bits if it is standard and the MOb is not set
  -- to extended ones. When `send` waits for the transmission, the MOb's registers hold the identifier
  -- and its kind, the number of data bytes and the bytes, and the request to transmit is set. After
  -- that the registers of this MOb are the same but for the request, the number of bytes and TXOK,
  -- which are cleared, and those of any other are as before.
  pub send-registers :
      (i : ℕ)
      → Encodes cmd.id cmd.ide (s.mobs cmd.mob_id)
      → let (m, s') = send cmd s in
        (get_can_id m ≡ cmd.id)
        × (is_extended_id m ≡ cmd.ide)
        × (get_dlc m ≡ length cmd.bytes)
        × (read_bytes (length cmd.bytes) (cmd.mob_id * 16) m ≡ cmd.bytes)
        × (m.cancdmob / 2 ^ 6 % 2 ≡ 1)
        × (s'.mobs i ≡ (if i == cmd.mob_id then re_enable_tx m else s.mobs i))
  send-registers i fits =
      let m = s.mobs cmd.mob_id in
      let (same_id, same_kind) = get_can_id-set_can_id cmd.id cmd.ide m fits in
      let (kind, size, asked) = request_kept n loaded eight in
      rw send_lem (
        request-get_can_id n loaded eight
            ∙ with_bytes-get_can_id (set_can_id cmd.id cmd.ide m) loaded.canmsg
            ∙ same_id,
        kind ∙ same_kind,
        size,
        read_bytes-put cmd.bytes 0 (cmd.mob_id * 16) (request n loaded)
            (set_can_id cmd.id cmd.ide m).canmsg (omega (arith, eight)) (omega arith),
        asked,
        send_after i,
      )
