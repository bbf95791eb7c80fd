-- ===== src/Flash.antt =====
-- include/avr-halib/drivers/avr/flash.h: the flash driver. What the driver asks of the controller is
-- a list of commands, with the values that it puts into the registers; what it reads of the memory is
-- a function from byte addresses to words.
pub mod Addressing
pub mod Writing
pub mod Reading
mod Tests
use avr_ha_lib.Prelude.{
  ℕ, zero, suc, ◌+◌, ◌*◌, ◌/◌, ◌%◌, ◌^◌, Bool, true, false, ◌&&◌, Option, none, some, List, [], ◌∷◌,
  ◌++◌, ◌==◌, ltb, leb, if◌then◌else◌,
}
use mathlib.Core.Option

-- `DefaultConfig`, its `pageSize` being the controller's SPM_PAGESIZE.
pub record Config : Type 0 where
  pub page_size : ℕ
  pub app_end : ℕ
  pub flash_end : ℕ
  pub auto_increment : Bool
  pub auto_write_page : Bool
  pub auto_erase : Bool
  pub preserve_unset : Bool

abbrev pub default_config : ℕ → Config
default_config page_size = record {
  page_size = page_size;
  app_end = 0x1d000;
  flash_end = 0x1ffff;
  auto_increment = true;
  auto_write_page = true;
  auto_erase = false;
  preserve_unset = false;
}

-- One use of the controller: the command, and the values of RAMPZ and Z where they matter.
pub data Command : Type 0 where
  buffer_write : ℕ → ℕ → Command
  page_erase : ℕ → ℕ → Command
  page_write : ℕ → ℕ → Command
  wait_done : Command
  enable_rww : Command

-- `Address`.
pub record Address : Type 0 where
  pub page : ℕ
  pub offset : ℕ

abbrev pub start : Address
start = record { page = 0; offset = 0 }

module _ (k : Config) where
  abbrev pub flash_page_end : ℕ
  flash_page_end = k.flash_end / k.page_size % 2 ^ 16

  abbrev pub app_page_end : ℕ
  app_page_end = k.app_end / k.page_size % 2 ^ 16

  -- `Address(address)`.
  unfoldable pub address : ℕ → Address
  address a = record { page = a / k.page_size % 2 ^ 16; offset = a % k.page_size % 2 ^ 16 }

  unfoldable pub is_valid : Address → Bool
  is_valid a = leb a.page flash_page_end && (ltb a.offset k.page_size && (a.offset % 2 == 0))

  unfoldable pub set_offset : ℕ → Address → Bool × Address
  set_offset offset a =
      if ltb offset k.page_size then (true, record a { offset = offset }) else (false, a)

  unfoldable pub set_page : ℕ → Address → Bool × Address
  set_page page a = if leb page flash_page_end then (true, record a { page = page }) else (false, a)

  unfoldable pub linear_address : Address → ℕ
  linear_address a = (a.page * k.page_size + a.offset) % 2 ^ 32

  unfoldable pub end_of_page : Address → Bool
  end_of_page a = a.offset == k.page_size

  -- `pageExt`, and the parts of it that go to RAMPZ and Z.
  abbrev pub page_ext : ℕ → ℕ
  page_ext page = page * k.page_size % 2 ^ 32

  unfoldable pub erase_page : ℕ → Command
  erase_page page = page_erase (page_ext page / 2 ^ 16 % 256) (page_ext page % 2 ^ 16)

  unfoldable pub write_page : ℕ → Command
  write_page page = page_write (page_ext page / 2 ^ 16 % 256) (page_ext page % 2 ^ 16)

unfoldable pub next : Address → Address
next a = record a { offset = (a.offset + 2) % 2 ^ 16 }

unfoldable pub next_page : Address → Address
next_page a = record { page = (a.page + 1) % 2 ^ 16; offset = 0 }

module _ (k : Config) (flash : ℕ → ℕ) where
  -- `preserveWord`: the commands; `current` stays, a copy of it is moved.
  unfoldable pub preserve_word : ℕ → Address → List Command
  preserve_word offset current =
      if k.preserve_unset
      then (let (_, temp) = set_offset k offset current in
          buffer_write offset (flash (linear_address k temp)) ∷ [])
      else []

  -- The loop of `setCurrentAddress`, from `temp` on, on fuel.
  unfoldable pub preserve_below : ℕ → ℕ → Address → Option (List Command)
  preserve_below zero temp current = none
  preserve_below (suc f) temp current =
      let rest = preserve_below f ((temp + 2) % 2 ^ 16) current in
      if ltb temp current.offset
      then Option.map (λ cs. preserve_word temp current ++ cs) rest
      else some []

  -- `Writer::setCurrentAddress`: the result, the commands and the writer's address.
  unfoldable pub set_current_address :
      ℕ → Address → Address → Option (Bool × List Command × Address)
  set_current_address f a current =
      if is_valid k a
      then Option.map (λ cs. (true, cs, a)) (preserve_below f 0 a)
      else some (false, [], current)

  -- The loop of `writeCurrentPage`, on fuel.
  unfoldable pub preserve_from : ℕ → Address → Address → Option (List Command)
  preserve_from zero temp current = none
  preserve_from (suc f) temp current =
      let rest = preserve_from f (next temp) current in
      if end_of_page k temp
      then some []
      else Option.map (λ cs. preserve_word temp.offset current ++ cs) rest

  unfoldable pub write_current_page : ℕ → Address → Option (List Command)
  write_current_page f current =
      Option.map
        (λ cs.
          cs
          ++ ((if k.auto_erase then erase_page k current.page ∷ wait_done ∷ [] else [])
              ++ write_page k current.page ∷ wait_done ∷ enable_rww ∷ []))
        (preserve_from f current current)

  unfoldable pub erase_current_page : Address → List Command
  erase_current_page current = erase_page k current.page ∷ wait_done ∷ enable_rww ∷ []

  -- `Writer::write`.
  unfoldable pub write : ℕ → ℕ → Address → Option (List Command × Address)
  write f word current =
      let written = buffer_write current.offset word ∷ wait_done ∷ [] in
      let moved = if k.auto_increment then next current else current in
      if k.auto_write_page && end_of_page k moved
      then Option.map (λ cs. (written ++ cs, next_page moved)) (write_current_page f moved)
      else some (written, moved)

  -- A client's sequence of writes.
  unfoldable pub write_all : ℕ → List ℕ → Address → Option (List Command × Address)
  write_all f [] current = some ([], current)
  write_all f (w ∷ ws) current = elim (write f w current) [
    | none ↦ none
    | some (cs, current') ↦ Option.map (λ r. (cs ++ r.0, r.1)) (write_all f ws current')
  ]

  -- `Reader::read`: the word and the reader's address.
  unfoldable pub read : Address → ℕ × Address
  read current =
      (flash (linear_address k current), if k.auto_increment then next current else current)

  -- A client's sequence of reads.
  unfoldable pub read_all : ℕ → Address → List ℕ × Address
  read_all zero current = ([], current)
  read_all (suc n) current =
      let (w, current') = read current in let (ws, last) = read_all n current' in (w ∷ ws, last)

-- `Reader::setCurrentAddress`.
unfoldable pub set_reader_address : Config → Address → Address → Bool × Address
set_reader_address k a current = if is_valid k a then (true, a) else (false, current)
