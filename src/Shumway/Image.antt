-- ===== src/Shumway/Image.antt =====
-- The image of a memory that the drivers of tools/bootloader/legacy/shumway/lib/mcu shall leave.
use mathlib.Core.Path.{subst}
use avr_ha_lib.Prelude.{
  ℕ, ◌+◌, ◌-◌, ◌≤◌, ◌≡◌, sym, ◌&&◌, ◌==◌, leb, ltb, if◌then◌else◌, arith, ℕ_discrete,
}

-- A memory with `len` bytes at `start`.
abbrev pub patched : ℕ → ℕ → (ℕ → ℕ) → (ℕ → ℕ) → ℕ → ℕ
patched start len bytes memory x =
    if leb start x && ltb x (start + len) then bytes (x - start) else memory x

-- One byte more.
pub patched-suc :
    (start a : ℕ) (bytes memory : ℕ → ℕ) (x : ℕ)
    → start ≤ a
    → patched start (a + 1 - start) bytes memory x
      ≡ (if x == a then bytes (a - start) else patched start (a - start) bytes memory x)
patched-suc start a bytes memory x h = elim (ℕ_discrete x a) [
  | yes here ↦
      subst
        (λ y.
          patched start (a + 1 - start) bytes memory y
          ≡ (if y == a then bytes (a - start) else patched start (a - start) bytes memory y))
        (sym here) (ground arith)
  | no other ↦ ground arith
]
