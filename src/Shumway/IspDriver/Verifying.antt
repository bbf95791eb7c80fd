-- ===== src/Shumway/IspDriver/Verifying.antt =====
-- What is written through the driver is read back through it.
use avr_ha_lib.Prelude.{
  ℕ, zero, suc, ◌+◌, ◌*◌, ◌/◌, ◌%◌, ◌^◌, ◌≤◌, ◌<◌, ◌≡◌, refl, ap, ◌∙◌, inl, Bool, true, false, List,
  [], ◌∷◌, some, arith, leb, ltb, ◌&&◌,
}
use mathlib.Core.Path.{ap₂}
use avr_ha_lib.Prelude.{if_cases}
use avr_ha_lib.Shumway.Image.{patched}
use avr_ha_lib.Shumway.Isp.{flash, eeprom}
use avr_ha_lib.Shumway.FlashDriver
use avr_ha_lib.Shumway.FlashDriver.{Part, page_size, blank_byte, aligned}
use avr_ha_lib.Shumway.FlashDriver.Documentation.{Documented}
use avr_ha_lib.Shumway.FlashDriver.Programming.{write_buffer_async-Written}
use avr_ha_lib.Shumway.EepromDriver
use avr_ha_lib.Shumway.EepromDriver.Writing.{write_buffer_async-stored}
use avr_ha_lib.Shumway.IspDriver.{Drivers, write_buffer_async, read_buffer}

-- `n` bytes of the RAM.
abbrev pub bytes : ℕ → ℕ → (ℕ → ℕ) → List ℕ
bytes at zero ram = []
bytes at (suc n) ram = ram at ∷ bytes (at + 1) n ram

-- What agrees from `a` and `b` on agrees at them and behind them.
agree_here : (n a b : ℕ) (f g : ℕ → ℕ) → ((i : ℕ) → i < suc n → f (a + i) ≡ g (b + i)) → f a ≡ g b
agree_here n a b f g h = ap f (omega arith) ∙ h 0 (omega arith) ∙ ap g (omega arith)

agree_later :
    (n a b : ℕ) (f g : ℕ → ℕ)
    → ((i : ℕ) → i < suc n → f (a + i) ≡ g (b + i))
    → (i : ℕ) → i < n
    → f (a + 1 + i) ≡ g (b + 1 + i)
agree_later n a b f g h i lt =
    ap f (omega arith) ∙ h (suc i) (omega (arith, lt)) ∙ ap g (omega arith)

-- A memory that holds the bytes of a buffer reads them.
eeprom_bytes :
    (n a b : ℕ) (ram m : ℕ → ℕ)
    → a + n < 2 ^ 16
    → ((i : ℕ) → i < n → m (a + i) ≡ ram (b + i))
    → EepromDriver.read_buffer a n m ≡ bytes b n ram
unfolding EepromDriver.read_buffer
eeprom_bytes zero a b ram m lim h = refl
eeprom_bytes (suc n) a b ram m lim h =
    ap₂ ◌∷◌ (ap m (omega (arith, lim)) ∙ agree_here n a b m ram h)
      (eeprom_bytes n (a + 1) (b + 1) ram m (omega (arith, lim)) (agree_later n a b m ram h))

flash_bytes :
    {M : Type 0} (p : Part M) (n a b : ℕ) (ram : ℕ → ℕ) (m : M)
    → a + n < 2 ^ 32
    → ((i : ℕ) → i < n → p.read_byte (a + i) m ≡ ram (b + i))
    → FlashDriver.read_buffer p a n m ≡ bytes b n ram
unfolding FlashDriver.read_buffer
flash_bytes p zero a b ram m lim h = refl
flash_bytes p (suc n) a b ram m lim h =
    let f : ℕ → ℕ = λ x. p.read_byte x m in
    ap₂ ◌∷◌ (ap f (omega (arith, lim)) ∙ agree_here n a b f ram h)
      (flash_bytes p n (a + 1) (b + 1) ram m (omega (arith, lim)) (agree_later n a b f ram h))

-- Inside the buffer the image has its bytes.
patched_inside :
    (start len buffer i : ℕ) (ram memory : ℕ → ℕ)
    → i < len
    → patched start len (λ j. ram (buffer + j)) memory (start + i) ≡ ram (buffer + i)
patched_inside start len buffer i ram memory lt =
    if_cases (λ v. v ≡ ram (buffer + i)) (leb start (start + i) && ltb (start + i) (start + len))
      (λ _. ap ram (omega arith)) (λ h. absurd (ground arith))

module _ {M : Type 0} (p : Part M) (ram : ℕ → ℕ) where
  -- A buffer of at most 255 bytes for the EEPROM, at the low 16 bits of an address, is written, with a
  -- callback, and then read back: if the EEPROM's driver has no callback registered, the buffer ends
  -- within the EEPROM of the AT90CAN128 and is not empty if it is for the address 0, and the loop in
  -- an interrupt has more fuel than the buffer has bytes, the request is taken, an interrupt for each
  -- byte and one more end the work with the driver free again, reading as many bytes at the address
  -- gives the buffer's, and the flash driver is as before.
  pub read_buffer-eeprom :
      (fuel addr buffer len : ℕ) (s : Drivers M)
      → len < 2 ^ 8
      → s.eeprom_driver.cb ≡ false
      → 0 < addr % 2 ^ 16 + len
      → addr % 2 ^ 16 + len ≤ EepromDriver.e2_end + 1
      → len < fuel
      → let (refused, s') = write_buffer_async p eeprom addr buffer len true s in
        (refused ≡ false)
        × ((t : EepromDriver.Driver) × (EepromDriver.run ram fuel (suc len) s'.eeprom_driver
              ≡ some t)
            × (t.cb ≡ false)
            × (read_buffer p eeprom addr len (record s' { eeprom_driver = t })
                ≡ bytes buffer len ram)
            × (s'.flash_driver ≡ s.flash_driver))
  read_buffer-eeprom fuel addr buffer len s short free any within enough =
      let lim : addr % 2 ^ 16 + len < 2 ^ 16 = omega (arith, within) in
      let e : len % 2 ^ 8 ≡ len = omega (arith, short) in
      let (taken, (t, r, free', off, called, image)) =
        write_buffer_async-stored ram fuel (addr % 2 ^ 16) buffer len s.eeprom_driver free any lim
          enough in
      rw e (
        taken,
        (
          t,
          r,
          free',
          eeprom_bytes len (addr % 2 ^ 16) buffer ram t.memory lim (λ i lt.
              image (addr % 2 ^ 16 + i)
              ∙ patched_inside (addr % 2 ^ 16) len buffer i ram s.eeprom_driver.memory lt),
          refl,
        ),
      )

  module _ {content buffered : ℕ → M → ℕ} {blocked : M → Bool}
      (doc : Documented p content buffered blocked) where
    -- A buffer of at most 255 bytes for the flash memory is written, with a callback, and then read
    -- back: if the buffer holds bytes and ends in the
    -- flash memory, the flash driver has no callback registered, the memory can be read, the page buffer is
    -- empty, and all pages after the first that the buffer touches are blank, the request is taken, 130
    -- interrupts for each page and two more end the work with the driver free again, reading as many
    -- bytes at the address gives the buffer's, and the EEPROM's driver is as before.
    pub read_buffer-flash :
        (addr buffer len : ℕ) (s : Drivers M)
        → len < 2 ^ 8
        → ((i : ℕ) → ram i < 256)
        → s.flash_driver.cb ≡ false
        → addr + len ≤ 2 ^ 17
        → blocked s.flash_driver.part ≡ false
        → ((i : ℕ) → i < page_size → buffered i s.flash_driver.part ≡ blank_byte)
        → ((x : ℕ)
            → aligned addr + page_size ≤ x
            → x < (addr + len + 255) / page_size * page_size
            → content x s.flash_driver.part ≡ blank_byte)
        → let (refused, s') = write_buffer_async p flash addr buffer len true s in
          (refused ≡ false)
          × ((t : FlashDriver.Driver M) × (FlashDriver.run p ram
                  (130 * ((addr % page_size + len + 255) / page_size) + 2)
                  s'.flash_driver
                ≡ some t)
              × (t.cb ≡ false)
              × (read_buffer p flash addr len (record s' { flash_driver = t })
                  ≡ bytes buffer len ram)
              × (s'.eeprom_driver ≡ s.eeprom_driver))
    read_buffer-flash addr buffer len s short bounded free lim readable empty blank =
        let e : len % 2 ^ 8 ≡ len = omega (arith, short) in
        let m = s.flash_driver.part in
        let memory : ℕ → ℕ = λ x. content x m in
        let (taken, (t, r, w)) =
          write_buffer_async-Written doc ram addr len buffer memory s.flash_driver.calls bounded
            blank s.flash_driver free refl lim readable empty (λ y. refl) in
        let holds : (i : ℕ) → i < len → p.read_byte (addr + i) t.part ≡ ram (buffer + i) = λ i lt.
          doc.read_byte_content (addr + i) t.part w.readable
          ∙ w.content_at (addr + i) (inl (inl (omega (arith, lt))))
          ∙ patched_inside addr len buffer i ram memory lt in
        rw e (
          taken,
          (
            t,
            r,
            w.released,
            flash_bytes p len addr buffer ram t.part (omega (arith, lim)) holds,
            refl,
          ),
        )
