-- ===== src/Portmap/Layout/Fields.antt =====
-- Where the bit-fields of a generated structure lie.
use avr_ha_lib.Prelude.{
  ℕ, ◌+◌, ◌-◌, ◌*◌, ◌/◌, ◌≤◌, ◌<◌, ◌≡◌, refl, ap, ◌∙◌, true, false, some, List, [], ◌∷◌, ◌++◌,
  arith, ◌==◌, map, dec_lt,
}
use avr_ha_lib.Portmap.Text.{Text, codes}
use avr_ha_lib.Portmap.Uc.{Controller, has_port, get_target_controller, get_address, pin, port, ddr}
use avr_ha_lib.Portmap.Uc.Ports.{get_target_controller-Registers}
use avr_ha_lib.Portmap.Description.{PinBlock, pin_count}
use avr_ha_lib.Portmap.Layout.{
  MapEntry, Member, pad_bits, pad_bytes, field, DataType, get_data_type, padding, members, sort,
  generate_map_entries, generate_pin_block,
}

-- An entry, the number of the first bit of its field from the start of the structure, and its width.
abbrev pub Place : Type 0
Place = MapEntry × ℕ × ℕ

-- The places of the fields when bit-fields follow one another without gaps, and an array of bytes
-- begins with a byte.
abbrev pub places : ℕ → List Member → List Place
places at [] = []
places at (pad_bits n ∷ ms) = places (at + n) ms
places at (pad_bytes i n ∷ ms) = places ((at + 7) / 8 * 8 + 8 * n) ms
places at (field t e n ∷ ms) = (e, at, n) ∷ places (at + n) ms

-- Where the field of an entry belongs: at its first pin in the byte of its address.
abbrev pub place : MapEntry → Place
place e = (e, 8 * e.addr + e.pb.first_pin, e.pb.last_pin + 1 - e.pb.first_pin)

-- Entries at rising addresses from `next` on, each with pins of one byte.
abbrev pub Rising : ℕ → List MapEntry → Type 0
Rising next [] = Unit
Rising next (e ∷ es) =
    (next ≤ e.addr)
    × (e.pb.first_pin ≤ e.pb.last_pin)
    × (e.pb.last_pin ≤ 7)
    × Rising (e.addr + 1) es

data_type-some : (n : ℕ) → 0 < n → (t : DataType) × (get_data_type n ≡ some t)
unfolding get_data_type
data_type-some n h = let e : (n == 0) ≡ false = ground arith in rw e (_, refl)

padding-places :
    (e : MapEntry) (i next prev at : ℕ) (ms : List Member)
    → prev ≤ 7
    → at + 7 ≡ 8 * next + prev
    → next ≤ e.addr
    → places at (padding i next prev e ++ ms) ≡ places (8 * e.addr + e.pb.first_pin) ms
unfolding padding
padding-places e i next prev at ms le p from = elim (dec_lt 0 (e.addr - next)) [
  | yes far ↦ ground arith
  | no near ↦ ground arith
]

members-places :
    (es : List MapEntry) (i next prev at : ℕ)
    → prev ≤ 7
    → at + 7 ≡ 8 * next + prev
    → Rising next es
    → (ms : List Member) × (members i next prev es ≡ some ms) × (places at ms ≡ map place es)
unfolding members
members-places [] i next prev at le e r = ([], refl, refl)
members-places (e ∷ es) i next prev at le p (from, first, last, rest) =
    let (t, typed) = data_type-some (pin_count e.pb) (omega arith) in
    let (ms, made, put) =
      members-places es (i + 1) (e.addr + 1) e.pb.last_pin (8 * e.addr + e.pb.last_pin + 1) last
        (omega arith) rest in
    (
      padding i next prev e ++ field t e (pin_count e.pb) ∷ ms,
      rw (typed, made) refl,
      padding-places e i next prev at (field t e (pin_count e.pb) ∷ ms) le p from
          ∙ ap (◌∷◌ (place e)) (ap (λ a. places a ms) (omega (arith, first)) ∙ put),
    )

sort-rising :
    (a b c : MapEntry) → a.addr < b.addr → b.addr < c.addr → sort (a ∷ b ∷ c ∷ []) ≡ a ∷ b ∷ c ∷ []
unfolding sort
sort-rising a b c h k = ground arith

-- Three entries at falling addresses do not come out in order: the smallest comes first, and the other
-- two still fall.
pub sort-falling :
    (a b c : MapEntry) → c.addr < b.addr → b.addr < a.addr → sort (a ∷ b ∷ c ∷ []) ≡ c ∷ a ∷ b ∷ []
unfolding sort
sort-falling a b c h k = ground arith

-- For a supported controller, a port that it has, and pins of one byte: the structure of the pin
-- block has the three fields `pin`, `ddr` and `port`, in the order of their registers' addresses,
-- each at its pins in the byte of its register and as wide as the pins are many, when bit-fields lie
-- one behind the other.
pub generate_pin_block-places :
    (s : Text) (k : Controller) (p : PinBlock)
    → get_target_controller s ≡ some k
    → has_port p.port k.ports ≡ true
    → p.first_pin ≤ p.last_pin
    → p.last_pin ≤ 7
    → (a : ℕ) × (d : ℕ) × (o : ℕ) × (ms : List Member) × (get_address p.port pin (some k) ≡ some a)
      × (get_address p.port ddr (some k) ≡ some d)
      × (get_address p.port port (some k) ≡ some o)
      × (generate_pin_block (some k) p ≡ some ms)
      × (places 0 ms
          ≡ map place (
              record { identifier = codes "pin"; ptype = pin; addr = a; pb = p }
              ∷ record { identifier = codes "ddr"; ptype = ddr; addr = d; pb = p }
              ∷ record { identifier = codes "port"; ptype = port; addr = o; pb = p }
              ∷ []))
unfolding generate_pin_block generate_map_entries
generate_pin_block-places s k p known has order byte =
    let r = get_target_controller-Registers s k p.port known has in
    let x : MapEntry = record { identifier = codes "pin"; ptype = pin; addr = r.pin_at; pb = p } in
    let y : MapEntry = record { identifier = codes "ddr"; ptype = ddr; addr = r.ddr_at; pb = p } in
    let z : MapEntry = record {
      identifier = codes "port";
      ptype = port;
      addr = r.port_at;
      pb = p;
    } in
    let (ms, made, put) = members-places (x ∷ y ∷ z ∷ []) 0 0 7 0 (omega arith) (omega arith) (
      omega arith,
      order,
      byte,
      (omega (arith, r.pin_before), order, byte, (omega (arith, r.ddr_before), order, byte, tt)),
    ) in
    (
      r.pin_at,
      r.ddr_at,
      r.port_at,
      ms,
      r.pin_found,
      r.ddr_found,
      r.port_found,
      rw (r.pin_found, r.ddr_found, r.port_found, sort-rising x y z r.pin_before r.ddr_before) made,
      put,
    )
