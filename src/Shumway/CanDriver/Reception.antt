-- ===== src/Shumway/CanDriver/Reception.antt =====
-- The interrupt of the CAN driver: what was sent arrives.
use mathlib.Core.Path.{ap₂}
use avr_ha_lib.Prelude.{
  ℕ, zero, suc, ◌*◌, ◌/◌, ◌%◌, ◌^◌, ◌≤◌, ◌<◌, ◌≡◌, ◌≢◌, refl, sym, ap, ◌∙◌, Bool, Option, none,
  some, List, ◌∷◌, ◌==◌, leb, if◌then◌else◌, length, arith, if_cases, ℕ_discrete, ==_iff,
}
use avr_ha_lib.Shumway.CanDriver.{
  Mob, Can, Cmd, clear_bit, current, modify, next_page, select_mob, is_extended_id, get_can_id,
  get_dlc, enable_rx, clear_status, send, read_bytes, mob_num, get_mob, isr,
}
use avr_ha_lib.Shumway.CanDriver.Transfer.{if_again, Encodes, send-registers}

-- The highest MOb that reports an interrupt.
pub record IsHighest (sit n k : ℕ) : Type 0 where
  pub below : k < n
  pub reports : sit / 2 ^ k % 2 ≡ 1
  pub above : (j : ℕ) → k < j → j < n → sit / 2 ^ j % 2 ≢ 1

get_mob-eq : (sit n k : ℕ) → IsHighest sit n k → get_mob n sit ≡ k
unfolding get_mob
get_mob-eq sit zero k h = absurd (omega (arith, h.below))
get_mob-eq sit (suc n) k h =
    if_cases (λ v. v ≡ k) ((sit / 2 ^ n % 2) == 1)
      (λ e. elim (ℕ_discrete n k) [
        | yes q ↦ q
        | no q ↦
            let b = h.below in
            absurd
              (h.above n (omega (arith, b, q)) (omega arith) ((==_iff (sit / 2 ^ n % 2) 1).0 e))
      ])
      (λ e. elim (ℕ_discrete n k) [
        | yes q ↦
            let bit : sit / 2 ^ n % 2 ≡ 1 = ap (λ j. sit / 2 ^ j % 2) q ∙ h.reports in
            absurd (cc (sym e ∙ (==_iff (sit / 2 ^ n % 2) 1).1 bit))
        | no q ↦
            let b = h.below in
            get_mob-eq sit n k (record {
              below = omega (arith, b, q);
              reports = h.reports;
              above = λ j lt lt'. h.above j lt (omega (arith, lt'));
            })
      ])

-- The registers of a MOb after the controller has put in what another MOb sent.
pub record Arrived (m x : Mob) : Type 0 where
  pub idt1 : x.canidt1 ≡ m.canidt1
  pub idt2 : x.canidt2 ≡ m.canidt2
  pub idt3 : x.canidt3 ≡ m.canidt3
  pub idt4 : x.canidt4 ≡ m.canidt4
  pub kind : is_extended_id x ≡ is_extended_id m
  pub size : get_dlc x ≡ get_dlc m
  pub content : (i : ℕ) → x.canmsg i ≡ m.canmsg i

Arrived-get_can_id : (m x : Mob) → Arrived m x → get_can_id x ≡ get_can_id m
unfolding get_can_id
Arrived-get_can_id m x a = cc

Arrived-read_bytes :
    (m x : Mob) (n page : ℕ) → Arrived m x → read_bytes n page x ≡ read_bytes n page m
unfolding read_bytes
Arrived-read_bytes m x zero page a = refl
Arrived-read_bytes m x (suc n) page a =
    ap₂ ◌∷◌ (a.content (page % 8)) (Arrived-read_bytes m x n (next_page page) a)

-- Only the index of a page counts.
read_bytes-page :
    (n page page' : ℕ) (m : Mob) → page % 8 ≡ page' % 8 → read_bytes n page m ≡ read_bytes n page' m
unfolding read_bytes
read_bytes-page zero page page' m h = refl
read_bytes-page (suc n) page page' m h =
    ap₂ ◌∷◌ (ap m.canmsg h)
      (read_bytes-page n (next_page page) (next_page page') m (omega (arith, h)))

module _ (r : Can) where
  -- RXOK is cleared.
  abbrev received : Mob → Mob
  received m = record m { canstmob = clear_bit 5 m.canstmob }

  abbrev selected : ℕ → Can
  selected k = modify received (select_mob k r)

  abbrev rearmed : ℕ → Can
  rearmed k = record (modify (λ x. enable_rx (clear_status x)) (selected k)) { canpage = r.canpage }

  -- The interrupt with the callback, the MOb and its registers.
  abbrev handled : ℕ → ℕ → Mob → Option (ℕ × Cmd × Can)
  handled cb k m =
      if leb (get_dlc m) 8
      then some (
        cb,
        record {
          mob_id = k;
          id = get_can_id m;
          ide = is_extended_id m;
          bytes = read_bytes (get_dlc m) (selected k).canpage m;
        },
        rearmed k,
      )
      else none

  current-selected : (k : ℕ) → k < mob_num → current (selected k) ≡ received (r.mobs k)
  current-selected k lt =
      let p = k * 16 % 256 / 16 in
      if_cases (λ v. v ≡ received (r.mobs k)) (p == p)
        (λ _. ap (λ q. received (r.mobs q)) (omega (arith, lt))) (λ h. absurd (ground arith))

  isr_lem :
      (cb k : ℕ)
      → r.cb ≡ some cb
      → IsHighest r.cansit mob_num k
      → isr r ≡ handled cb k (received (r.mobs k))
  unfolding isr
  isr_lem cb k e h =
      let any = λ (c : ℕ) (j : ℕ). handled c j (current (selected j)) in
      ap
        (λ o. elim o as (λ _. Option (ℕ × Cmd × Can)) [
          | none ↦ none
          | some c ↦ any c (get_mob mob_num r.cansit)
        ])
        e
      ∙ ap (any cb) (get_mob-eq r.cansit mob_num k h)
      ∙ ap (handled cb k) (current-selected k h.below)

  rearmed-mobs : (k : ℕ) → k < mob_num → (rearmed k).mobs k ≡ enable_rx (clear_status (r.mobs k))
  rearmed-mobs k lt =
      let p = k * 16 % 256 / 16 in
      let again : Mob → Mob = λ x. enable_rx (clear_status x) in
      if_again received again (k == p) (r.mobs k)
      ∙ if_cases (λ v. v ≡ again (r.mobs k)) (k == p) (λ _. refl) (λ h. absurd (ground arith))

-- What one node's `send` puts into its registers, for an identifier that they can hold and at most 8
-- data bytes, is what another node's interrupt gives to its callback, with the number of the MOb
-- there: if that MOb is the highest that reports, the controllers have copied the identifier, its
-- kind, the number of bytes and the bytes to it, and a callback is registered. After that CANPAGE is
-- as before, and the MOb's status is cleared and its reception enabled again.
pub isr-send :
    (cmd : Cmd) (s r : Can) (cb k : ℕ)
    → cmd.mob_id < mob_num
    → length cmd.bytes ≤ 8
    → Encodes cmd.id cmd.ide (s.mobs cmd.mob_id)
    → r.cb ≡ some cb
    → IsHighest r.cansit mob_num k
    → Arrived (send cmd s).0 (r.mobs k)
    → (r' : Can) × (isr r ≡ some (cb, record cmd { mob_id = k }, r'))
      × (r'.canpage ≡ r.canpage)
      × ((r'.mobs k).canstmob ≡ 0)
      × ((r'.mobs k).cancdmob / 2 ^ 7 % 2 ≡ 1)
isr-send cmd s r cb k real eight fits e high arrived =
    let (same_id, same_kind, size, bytes, asked, after) = send-registers cmd s real eight 0 fits in
    let m = (send cmd s).0 in
    let x = received r (r.mobs k) in
    let a : Arrived m x = record {
      idt1 = arrived.idt1;
      idt2 = arrived.idt2;
      idt3 = arrived.idt3;
      idt4 = arrived.idt4;
      kind = arrived.kind;
      size = arrived.size;
      content = arrived.content;
    } in
    let page = (selected r k).canpage in
    let call : ℕ → Bool → List ℕ → Option (ℕ × Cmd × Can) =
      λ i b l. some (cb, record { mob_id = k; id = i; ide = b; bytes = l }, rearmed r k) in
    let same_id' : get_can_id x ≡ cmd.id = Arrived-get_can_id m x a ∙ same_id in
    let same_bytes : read_bytes (get_dlc x) page x ≡ cmd.bytes =
      ap (λ n. read_bytes n page x) (a.size ∙ size)
      ∙ Arrived-read_bytes m x (length cmd.bytes) page a
      ∙ read_bytes-page (length cmd.bytes) page (cmd.mob_id * 16) m (omega (arith, high.below))
      ∙ bytes in
    let ready = rearmed-mobs r k high.below in
    (
      rearmed r k,
      isr_lem r cb k e high
          ∙ if_cases (λ v. v ≡ call cmd.id cmd.ide cmd.bytes) (leb (get_dlc x) 8)
              (λ _.
                ap (λ i. call i (is_extended_id x) (read_bytes (get_dlc x) page x)) same_id'
                ∙ ap (λ b. call cmd.id b (read_bytes (get_dlc x) page x)) (a.kind ∙ same_kind)
                ∙ ap (call cmd.id cmd.ide) same_bytes)
              (λ h. absurd (ground (arith, a.size, size, eight))),
      refl,
      ap (λ v. v.canstmob) ready,
      ap (λ v. v.cancdmob / 2 ^ 7 % 2) ready ∙ ground arith,
    )
