-- ===== src/Crc.antt =====
-- The reflected 32-bit CRC that src/mailbox/mailbox.c, src/discovery/discovery_validate.c and src/bib/
-- each write out, over an arbitrary generator. The components' own loops are shown equal to it.
pub mod Detect
use atarix.Prelude.{
  ℕ, zero, suc, ◌/◌, ◌%◌, ◌^◌, ◌≤◌, ◌<◌, List, [], ◌∷◌, bit_xor, ◌==◌, if◌then◌else◌,
}

-- A generator has its highest coefficient, the lowest digit's place in the reflected form.
abbrev pub IsGenerator : ℕ → Type 0
IsGenerator poly = (2 ^ 31 ≤ poly) × (poly < 2 ^ 32)

module _ (poly : ℕ) where
  unfoldable pub bit_step : ℕ → ℕ
  bit_step crc = if crc % 2 == 0 then crc / 2 else bit_xor (crc / 2) poly

  unfoldable pub bit_steps : ℕ → ℕ → ℕ
  bit_steps zero crc = crc
  bit_steps (suc n) crc = bit_steps n (bit_step crc)

  unfoldable pub update : ℕ → List ℕ → ℕ
  update crc [] = crc
  update crc (byte ∷ bytes) = update (bit_steps 8 (bit_xor crc byte)) bytes
