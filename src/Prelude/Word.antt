-- ===== src/Prelude/Word.antt =====
-- Unsigned words of C as natural numbers: casts, complements, and tests of flags.
use Prim.Native.Nat.{ℕ, ◌-◌, ◌*◌, ◌/◌, ◌%◌, ◌^◌, ◌<◌, bit_and}
use mathlib.Core.Path.{◌≡◌, ap, ◌∙◌}
use mathlib.Core.Bool.{Bool, true, not}
use mathlib.Core.Logic.{◌↔◌}
use native.Mathlib.Nat.{one-le-pow}
use native.Mathlib.Decide.{dec_lt}
use native.Mathlib.Omega.{arith}
use atarix.Prelude.Tests.{◌==◌}
use atarix.Prelude.Bits.Masks.{bit_and_mask, bit_and_shifted, bit_and_complement_zero}

abbrev pub u16 : ℕ → ℕ
u16 n = n % 2 ^ 16

abbrev pub u32 : ℕ → ℕ
u32 n = n % 2 ^ 32

-- `~x` of a word of that width.
abbrev pub not16 : ℕ → ℕ
not16 x = 2 ^ 16 - 1 - x

abbrev pub not32 : ℕ → ℕ
not32 x = 2 ^ 32 - 1 - x

-- `(flags & flag) != 0u`
abbrev pub has_flag : ℕ → ℕ → Bool
has_flag flags flag = not (bit_and flags flag == 0)

-- A flag is one digit of the word.
bit_and-flag : (k flags : ℕ) → bit_and flags (2 ^ k) ≡ flags / 2 ^ k % 2 * 2 ^ k
bit_and-flag k flags =
    let one_shifted : 2 ^ k ≡ 1 * 2 ^ k = omega arith in
    ap (λ (m : ℕ). bit_and flags m) one_shifted
    ∙ bit_and_shifted k flags 1
    ∙ ap (λ (d : ℕ). d * 2 ^ k) (bit_and_mask 1 (flags / 2 ^ k))

has_flag_digit : (k flags : ℕ) → (has_flag flags (2 ^ k) ≡ true) ↔ (flags / 2 ^ k % 2 ≡ 1)
has_flag_digit k flags = elim (dec_lt 0 (flags / 2 ^ k % 2)) [
  | yes p ↦
      let e : flags / 2 ^ k % 2 ≡ 1 = omega arith in
      ground
        (arith, bit_and-flag k flags, one-le-pow k 2 (omega arith), ap (λ (d : ℕ). d * 2 ^ k) e)
  | no p ↦
      let e : flags / 2 ^ k % 2 ≡ 0 = omega arith in
      ground (arith, bit_and-flag k flags, ap (λ (d : ℕ). d * 2 ^ k) e)
]

-- `(child & ~parent) == 0`: the child has no flag that the parent lacks.
pub has_flag_subset :
    (k child parent : ℕ)
    → k < 32
    → parent < 2 ^ 32
    → bit_and child (not32 parent) ≡ 0
    → has_flag child (2 ^ k) ≡ true
    → has_flag parent (2 ^ k) ≡ true
has_flag_subset k child parent h fits e on = (has_flag_digit k parent).1 (
    omega
      (arith, (has_flag_digit k child).0 on, bit_and_complement_zero 32 k child parent h fits e))
