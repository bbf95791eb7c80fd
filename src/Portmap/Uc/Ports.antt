-- ===== src/Portmap/Uc/Ports.antt =====
-- What the tables of the controllers have in common.
use avr_ha_lib.Prelude.{
  ℕ, ◌<◌, ◌≡◌, refl, Bool, true, false, Option, none, some, List, [], ◌∷◌, arith, ◌==◌,
  if◌then◌else◌, Bool-cases, All, map, ==_iff, inl, inr, sym,
}
use mathlib.Core.Path.{subst}
use avr_ha_lib.Portmap.Text.{Text, text_eq, to_lower}
use avr_ha_lib.Portmap.Uc.{
  pin, port, ddr, PortToMem, Controller, has_port, get_address, get_target_controller, atmega32,
  atmega128, atmega1281, atmega128rfa1, at90can128,
}

-- The three registers of the port `c`, one behind the other.
pub record Registers (c : ℕ) (k : Controller) : Type 0 where
  pub pin_at : ℕ
  pub ddr_at : ℕ
  pub port_at : ℕ
  pub pin_found : get_address c pin (some k) ≡ some pin_at
  pub ddr_found : get_address c ddr (some k) ≡ some ddr_at
  pub port_found : get_address c port (some k) ≡ some port_at
  pub pin_before : pin_at < ddr_at
  pub ddr_before : ddr_at < port_at

-- What holds of the port of every row holds of every port that the table has.
pub has_port-All :
    (P : ℕ → Type 0) (c : ℕ) (rs : List PortToMem)
    → All (λ r. P r.port_char) rs
    → has_port c rs ≡ true
    → P c
has_port-All P c [] all h = absurd (cc)
has_port-All P c (r ∷ rs) all h = elim (Bool-cases (c == r.port_char)) [
  | inl e ↦ subst P (sym ((==_iff c r.port_char).0 e)) all.0
  | inr e ↦ has_port-All P c rs all.1 (ground arith)
]

registers :
    (c a d o : ℕ) (k : Controller)
    → get_address c pin (some k) ≡ some a
    → get_address c ddr (some k) ≡ some d
    → get_address c port (some k) ≡ some o
    → a < d
    → d < o
    → Registers c k
registers c a d o k p q r lt lt' = record {
  pin_at = a;
  ddr_at = d;
  port_at = o;
  pin_found = p;
  ddr_found = q;
  port_found = r;
  pin_before = lt;
  ddr_before = lt';
}

-- The three rows of a port.
thrice : {A B : Type 0} → A → B → A × (A × (A × B))
thrice a b = (a, (a, (a, b)))

atmega32-Registers : (c : ℕ) → has_port c atmega32.ports ≡ true → Registers c atmega32
unfolding get_address
atmega32-Registers c =
    let at = λ (c a d o : ℕ). registers c a d o atmega32 in
    has_port-All (λ c. Registers c atmega32) c atmega32.ports
      (thrice (at b'd' 0x30 0x31 0x32 refl refl refl (omega arith) (omega arith)) (
        thrice (at b'c' 0x33 0x34 0x35 refl refl refl (omega arith) (omega arith)) (
          thrice (at b'b' 0x36 0x37 0x38 refl refl refl (omega arith) (omega arith))
            (thrice (at b'a' 0x39 0x3a 0x3b refl refl refl (omega arith) (omega arith)) (tt)))))

atmega128-Registers : (c : ℕ) → has_port c atmega128.ports ≡ true → Registers c atmega128
unfolding get_address
atmega128-Registers c =
    let at = λ (c a d o : ℕ). registers c a d o atmega128 in
    has_port-All (λ c. Registers c atmega128) c atmega128.ports
      (thrice (at b'g' 0x63 0x64 0x65 refl refl refl (omega arith) (omega arith)) (
        thrice (at b'f' 0x20 0x61 0x62 refl refl refl (omega arith) (omega arith)) (
          thrice (at b'e' 0x21 0x22 0x23 refl refl refl (omega arith) (omega arith)) (
            thrice (at b'd' 0x30 0x31 0x32 refl refl refl (omega arith) (omega arith)) (
              thrice (at b'c' 0x33 0x34 0x35 refl refl refl (omega arith) (omega arith)) (
                thrice (at b'b' 0x36 0x37 0x38 refl refl refl (omega arith) (omega arith)) (
                  thrice (at b'a' 0x39 0x3a 0x3b refl refl refl (omega arith) (omega arith))
                    (tt))))))))

atmega1281-Registers : (c : ℕ) → has_port c atmega1281.ports ≡ true → Registers c atmega1281
unfolding get_address
atmega1281-Registers c =
    let at = λ (c a d o : ℕ). registers c a d o atmega1281 in
    has_port-All (λ c. Registers c atmega1281) c atmega1281.ports
      (thrice (at b'a' 0x20 0x21 0x22 refl refl refl (omega arith) (omega arith)) (
        thrice (at b'b' 0x23 0x24 0x25 refl refl refl (omega arith) (omega arith)) (
          thrice (at b'c' 0x26 0x27 0x28 refl refl refl (omega arith) (omega arith)) (
            thrice (at b'd' 0x29 0x2a 0x2b refl refl refl (omega arith) (omega arith)) (
              thrice (at b'e' 0x2c 0x2d 0x2e refl refl refl (omega arith) (omega arith)) (
                thrice (at b'f' 0x2f 0x30 0x31 refl refl refl (omega arith) (omega arith)) (
                  thrice (at b'g' 0x32 0x33 0x34 refl refl refl (omega arith) (omega arith))
                    (tt))))))))

atmega128rfa1-Registers :
    (c : ℕ) → has_port c atmega128rfa1.ports ≡ true → Registers c atmega128rfa1
unfolding get_address
atmega128rfa1-Registers c =
    let at = λ (c a d o : ℕ). registers c a d o atmega128rfa1 in
    has_port-All (λ c. Registers c atmega128rfa1) c atmega128rfa1.ports
      (thrice (at b'a' 0x20 0x21 0x22 refl refl refl (omega arith) (omega arith)) (
        thrice (at b'b' 0x23 0x24 0x25 refl refl refl (omega arith) (omega arith)) (
          thrice (at b'c' 0x26 0x27 0x28 refl refl refl (omega arith) (omega arith)) (
            thrice (at b'd' 0x29 0x2a 0x2b refl refl refl (omega arith) (omega arith)) (
              thrice (at b'e' 0x2c 0x2d 0x2e refl refl refl (omega arith) (omega arith)) (
                thrice (at b'f' 0x2f 0x30 0x31 refl refl refl (omega arith) (omega arith)) (
                  thrice (at b'g' 0x32 0x33 0x34 refl refl refl (omega arith) (omega arith))
                    (tt))))))))

at90can128-Registers : (c : ℕ) → has_port c at90can128.ports ≡ true → Registers c at90can128
unfolding get_address
at90can128-Registers c =
    let at = λ (c a d o : ℕ). registers c a d o at90can128 in
    has_port-All (λ c. Registers c at90can128) c at90can128.ports
      (thrice (at b'a' 0x20 0x21 0x22 refl refl refl (omega arith) (omega arith)) (
        thrice (at b'b' 0x23 0x24 0x25 refl refl refl (omega arith) (omega arith)) (
          thrice (at b'c' 0x26 0x27 0x28 refl refl refl (omega arith) (omega arith)) (
            thrice (at b'd' 0x29 0x2a 0x2b refl refl refl (omega arith) (omega arith)) (
              thrice (at b'e' 0x2c 0x2d 0x2e refl refl refl (omega arith) (omega arith)) (
                thrice (at b'f' 0x2f 0x30 0x31 refl refl refl (omega arith) (omega arith)) (
                  thrice (at b'g' 0x32 0x33 0x34 refl refl refl (omega arith) (omega arith))
                    (tt))))))))

abbrev select : List (Bool × Controller) → Option Controller
select [] = none
select ((b, k) ∷ r) = if b then some k else select r

pub select-All :
    (P : Controller → Type 0) (bs : List (Bool × Controller)) (k : Controller)
    → All (λ b. P b.1) bs
    → select bs ≡ some k
    → P k
select-All P [] k all e = absurd (cc)
select-All P ((true, first) ∷ bs) k all e = let same : first ≡ k = cc in subst P same all.0
select-All P ((false, first) ∷ bs) k all e = select-All P bs k all.1 e

-- Every port that the table of a supported controller has, has its three registers there, at
-- addresses that rise from PIN over DDR to PORT.
pub get_target_controller-Registers :
    (s : Text) (k : Controller) (c : ℕ)
    → get_target_controller s ≡ some k
    → has_port c k.ports ≡ true
    → Registers c k
unfolding get_target_controller
get_target_controller-Registers s k c e h =
    let name = map to_lower s in
    select-All (λ k. has_port c k.ports ≡ true → Registers c k)
      ((text_eq name at90can128.name, at90can128)
        ∷ (text_eq name atmega32.name, atmega32)
        ∷ (text_eq name atmega128.name, atmega128)
        ∷ (text_eq name atmega1281.name, atmega1281)
        ∷ (text_eq name atmega128rfa1.name, atmega128rfa1)
        ∷ [])
      k
      (
        at90can128-Registers c,
        (
          atmega32-Registers c,
          (atmega128-Registers c, (atmega1281-Registers c, (atmega128rfa1-Registers c, tt))),
        ),
      )
      e h
