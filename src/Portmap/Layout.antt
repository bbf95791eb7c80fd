-- ===== src/Portmap/Layout.antt =====
-- tools/portmapgen/src/generate.cpp: the members of the structure that lays the pins of a block over
-- the registers, and the code of a virtual port. The generated text is data here, a declaration or an
-- expression for each that is written; `none` is an assertion that fails.
pub mod Fields
pub mod Masks
pub mod Vports
mod Tests
use avr_ha_lib.Prelude.{
  ℕ, zero, suc, ◌+◌, ◌-◌, ◌*◌, ◌/◌, ◌%◌, ◌^◌, Bool, true, false, not, ◌&&◌, ◌||◌, Option, none,
  some, List, [], ◌∷◌, ◌++◌, ◌==◌, ltb, leb, if◌then◌else◌, length,
}
use mathlib.Core.Option
use avr_ha_lib.Portmap.Text.{Text, codes}
use avr_ha_lib.Portmap.Uc.{PinType, pin, port, ddr, Controller, get_address}
use avr_ha_lib.Portmap.Description.{PinBlock, VirtualPort, pin_count}

infixl 10 ◌>>=◌
abbrev pub ◌>>=◌ {ℓ κ} : {A : Type ℓ} {B : Type κ} → Option A → (A → Option B) → Option B
◌>>=◌ none f = none
◌>>=◌ (some a) f = f a

-- `getDataType`: the number of bits of the type.
pub data DataType : Type 0 where
  bool : DataType
  uint8_t : DataType
  uint16_t : DataType
  uint32_t : DataType

unfoldable pub get_data_type : ℕ → Option DataType
get_data_type bits =
    if bits == 0
    then none
    else some (
        if bits == 1
        then bool
        else if leb bits 8
        then uint8_t
        else if leb bits 16
        then uint16_t
        else uint32_t)

-- `MapEntryData`
pub record MapEntry : Type 0 where
  pub identifier : Text
  pub ptype : PinType
  pub addr : ℕ
  pub pb : PinBlock

-- A member: unnamed bits, a numbered array of bytes, or a named bit-field.
pub data Member : Type 0 where
  pad_bits : ℕ → Member
  pad_bytes : ℕ → ℕ → Member
  field : DataType → MapEntry → ℕ → Member

-- The order of the sort.
abbrev pub before : MapEntry → MapEntry → Bool
before a b = ltb a.addr b.addr || ((a.addr == b.addr) && ltb a.pb.first_pin b.pb.first_pin)

-- `p[i + 1]` and `p[i]` change places if they are out of order.
abbrev pub swap_at : ℕ → List MapEntry → List MapEntry
swap_at i [] = []
swap_at i (a ∷ []) = a ∷ []
swap_at zero (a ∷ b ∷ r) = if before b a then b ∷ a ∷ r else a ∷ b ∷ r
swap_at (suc i) (a ∷ b ∷ r) = a ∷ swap_at i (b ∷ r)

-- The inner loop, from `i` down to 1.
abbrev pub sort_pass : ℕ → List MapEntry → List MapEntry
sort_pass zero p = p
sort_pass (suc i) p = sort_pass i (swap_at i p)

-- The outer loop, from `o` down to 1.
abbrev pub sort_passes : ℕ → List MapEntry → List MapEntry
sort_passes zero p = p
sort_passes (suc o) p = sort_passes o (sort_pass (suc o) p)

unfoldable pub sort : List MapEntry → List MapEntry
sort p = sort_passes (length p - 1) p

-- What is written in front of the field of the entry `i`, with `prevAddress` + 1 and `prevPin`, which is
-- at most 7.
unfoldable pub padding : ℕ → ℕ → ℕ → MapEntry → List Member
padding i next prev e =
    let full_byte_pad = e.addr - next in
    let prev' = if ltb 0 full_byte_pad && ltb prev 7 then 7 else prev in
    let bit_pad = 7 + e.pb.first_pin - prev' in
    (if ltb 0 full_byte_pad
      then (if ltb prev 7 then pad_bits (7 - prev) ∷ [] else []) ++ pad_bytes i full_byte_pad ∷ []
      else [])
    ++ (if ltb 0 bit_pad then pad_bits bit_pad ∷ [] else [])

-- The loop over the entries.
unfoldable pub members : ℕ → ℕ → ℕ → List MapEntry → Option (List Member)
members i next prev [] = some []
members i next prev (e ∷ es) = do
  t ← get_data_type (pin_count e.pb)
  rest ← members (i + 1) (e.addr + 1) e.pb.last_pin es
  some (padding i next prev e ++ field t e (pin_count e.pb) ∷ rest)

unfoldable pub generate_map_entries : List MapEntry → Option (List Member)
generate_map_entries p = members 0 0 7 (sort p)

-- `generatePinBlock`: the members of its structure. A port has all three addresses or none.
unfoldable pub generate_pin_block : Option Controller → PinBlock → Option (List Member)
generate_pin_block k p = do
  a ← get_address p.port pin k
  d ← get_address p.port ddr k
  o ← get_address p.port port k
  generate_map_entries (
      record { identifier = codes "pin"; ptype = pin; addr = a; pb = p }
      ∷ record { identifier = codes "ddr"; ptype = ddr; addr = d; pb = p }
      ∷ record { identifier = codes "port"; ptype = port; addr = o; pb = p }
      ∷ [])

-- A hexadecimal digit.
abbrev pub digit : ℕ → ℕ
digit n = if leb n 9 then n + 48 else n + 87

-- `nibble <<= 1; if (i >= firstBit && i <= lastBit) nibble |= 1;` for `i` from 3 to 0.
abbrev nibble_step : ℕ → ℕ → ℕ → ℕ → ℕ
nibble_step first last i n = n * 2 + (if leb first i && leb i last then 1 else 0)

abbrev pub nibble : ℕ → ℕ → ℕ
nibble first last =
    nibble_step first last 0
      (nibble_step first last 1 (nibble_step first last 2 (nibble_step first last 3 0)))

-- The two loops of `getBitMask`, on fuel; the digits so far are `s`.
unfoldable pub mask_digits : ℕ → ℕ → ℕ → Text → Option Text
mask_digits zero first count s = none
mask_digits (suc f) first count s =
    let rest =
      mask_digits f 0 (count - (4 - first)) (digit (nibble first (first + count - 1)) ∷ s) in
    if ltb 0 count then rest else some s

unfoldable pub mask_zeros : ℕ → ℕ → ℕ → Text → Option Text
mask_zeros zero first count s = none
mask_zeros (suc f) first count s =
    let rest = mask_zeros f (first - 4) count (s ++ b'0' ∷ []) in
    if leb 4 first then rest else mask_digits (suc count) first count s

unfoldable pub get_bit_mask : ℕ → ℕ → Option Text
get_bit_mask first count =
    if count == 0
    then none
    else Option.map (λ s. codes "0x" ++ s) (mask_zeros (suc first) first count [])

-- A term of the generated functions: the pin block, the bits to shift by, and the mask of `set`.
pub record Term : Type 0 where
  pub block : PinBlock
  pub get_shift : Option ℕ
  pub mask : Text
  pub set_shift : Option ℕ

-- The loop over the pin blocks from the bit `bit` on. It goes on behind the end while `bit` is larger
-- than `bitCount`; that fault is `none` too.
unfoldable pub terms : ℕ → ℕ → List PinBlock → Option (List Term)
terms bit_count bit [] = if ltb bit_count bit then none else some []
terms bit_count bit (p ∷ ps) = do
  mask ← get_bit_mask bit (pin_count p)
  rest ← terms bit_count (bit + pin_count p) ps
  some (
      record {
        block = p;
        get_shift = if ltb 0 bit then some bit else none;
        mask = mask;
        set_shift = if ltb 0 bit && not (pin_count p == 1) then some bit else none;
      }
      ∷ rest)

abbrev pub total_pins : List PinBlock → ℕ
total_pins [] = 0
total_pins (p ∷ ps) = pin_count p + total_pins ps

-- The functions `get` and `set` of a virtual port: for each kind of register the same terms, which `get`
-- joins by `||`.
pub record Accessors : Type 0 where
  pub kind : PinType
  pub data_type : DataType
  pub parts : List Term

pub record VportCode : Type 0 where
  pub blocks : List (List Member)
  pub accessors : List Accessors

abbrev pub generate_pin_blocks : Option Controller → List PinBlock → Option (List (List Member))
generate_pin_blocks k [] = some []
generate_pin_blocks k (p ∷ ps) = do
  ms ← generate_pin_block k p
  rest ← generate_pin_blocks k ps
  some (ms ∷ rest)

unfoldable pub generate_virtual_port : Option Controller → VirtualPort → Option VportCode
generate_virtual_port k v = do
  blocks ← generate_pin_blocks k v.pin_blocks
  let total = total_pins v.pin_blocks
  let bit_count = if ltb 32 total then 32 else total
  t ← get_data_type (if bit_count == 1 then 8 else bit_count)
  parts ← terms bit_count 0 v.pin_blocks
  some (record {
    blocks = blocks;
    accessors =
        record { kind = pin; data_type = t; parts = parts }
        ∷ record { kind = port; data_type = t; parts = parts }
        ∷ record { kind = ddr; data_type = t; parts = parts }
        ∷ [];
  })
