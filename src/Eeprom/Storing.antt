-- ===== src/Eeprom/Storing.antt =====
-- Bytes that are written one after another are read back.
use avr_ha_lib.Prelude.{
  ℕ, zero, suc, ◌+◌, ◌^◌, ◌<◌, ◌≤◌, ◌≡◌, refl, sym, ap, ◌∙◌, true, false, ◌||◌, List, [], ◌∷◌, ◌==◌,
  ltb, length, arith, Bool-cases, inl, inr,
}
use mathlib.Core.Path.{ap₂}
use avr_ha_lib.Eeprom.{Config, Eeprom, set_address, next, read, write}

abbrev pub write_all : List ℕ → Eeprom → Eeprom
write_all [] s = s
write_all (d ∷ ds) s = write_all ds (write d s)

abbrev pub read_all : ℕ → Eeprom → List ℕ
read_all zero s = []
read_all (suc n) s = let (d, s') = read s in d ∷ read_all n s'

-- Writing leaves what lies below.
write_all-below :
    (ds : List ℕ) (s : Eeprom) (x : ℕ)
    → s.address + length ds < 2 ^ 16
    → x < s.address
    → (write_all ds s).memory x ≡ s.memory x
unfolding write
write_all-below [] s x h below = refl
write_all-below (d ∷ ds) s x h below =
    let up : next s.address ≡ s.address + 1 = omega arith in
    let other : (x == s.address) ≡ false = ground arith in
    write_all-below ds (write d s) x (omega arith) (omega arith) ∙ rw other refl

read_all-write_all :
    (ds : List ℕ) (s : Eeprom)
    → s.address + length ds < 2 ^ 16
    → read_all (length ds) (record s { memory = (write_all ds s).memory }) ≡ ds
unfolding read write
read_all-write_all [] s h = refl
read_all-write_all (d ∷ ds) s h =
    let up : next s.address ≡ s.address + 1 = omega arith in
    let here : (s.address == s.address) ≡ true = ground arith in
    ap₂ ◌∷◌ (write_all-below ds (write d s) s.address (omega arith) (omega arith) ∙ rw here refl)
      (read_all-write_all ds (write d s) (omega arith))

accepted :
    (c : Config) (a : ℕ) (s s' t : Eeprom)
    → set_address c a s ≡ (true, s')
    → (s' ≡ record s { address = a }) × (set_address c a t ≡ (true, record t { address = a }))
unfolding set_address
accepted c a s s' t e = elim (Bool-cases (ltb a c.address_start || ltb c.address_end a)) [
  | inl outside ↦ absurd (cc (rw outside at e))
  | inr inside ↦ (sym (ap (λ r. r.1) (rw inside at e)), rw inside refl)
]

-- For a configured range within the 4096 cells of the memory: bytes that are written from an address that
-- `setAddress` has accepted, and that end in that range, are read back, in order, when the same address
-- is set again, which is accepted.
pub set_address-read_all :
    (c : Config) (a : ℕ) (ds : List ℕ) (s s' : Eeprom)
    → set_address c a s ≡ (true, s')
    → c.address_end < 2 ^ 12
    → a + length ds ≤ c.address_end + 1
    → let (ok, s'') = set_address c a (write_all ds s') in
      (ok ≡ true) × (read_all (length ds) s'' ≡ ds)
set_address-read_all c a ds s s' e cells h =
    let (same, again) = accepted c a s s' (write_all ds s') e in
    rw (again, same) (refl, read_all-write_all ds (record s { address = a }) (omega arith))
