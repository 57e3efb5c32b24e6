-- ===== src/Prelude/Bits.antt =====
-- `&`, `|` and `^` of C at variables: one equation for the lowest digit of each, and what follows
-- by recursion on the width.
pub mod Masks
use Prim.Native.Nat.{ℕ, zero, suc, ◌+◌, ◌-◌, ◌*◌, ◌/◌, ◌%◌, ◌^◌, ◌≤◌, ◌<◌, min, max, differ}
use Prim.Native.Nat.{bit_and, bit_or, bit_xor, digits, bitwise}
use Prim.Native.Nat.{bit_and-bitwise, bit_or-bitwise, bit_xor-bitwise}
use Prim.Native.Nat.add
use mathlib.Core.Path.{◌≡◌, refl, sym, ◌∙◌, ap}
use native.Mathlib.Nat.{
  pow-suc, one-le-pow, mod-lt, mod-eq_of_lt, div-add-mod, mul_assoc, add-mul-mod_self_left, div-one,
  div-div-eq-div-mul,
}
use native.Mathlib.Decide.{dec_lt}
use native.Mathlib.Omega.{arith}

module _ (z : ℕ → ℕ) (f : ℕ → ℕ → ℕ) where
  -- One more unit of fuel changes nothing once the first number fits the fuel.
  digits-suc : (n a b : ℕ) → a ≤ n → digits z f (suc n) a b ≡ digits z f n a b
  digits-suc zero zero b h = refl
  digits-suc zero (suc a) b h = absurd (omega arith)
  digits-suc (suc n) zero b h = refl
  digits-suc (suc n) (suc a) b h =
      ap (λ (d : ℕ). d * 2 + f (suc a % 2) (b % 2)) (digits-suc n (suc a / 2) (b / 2) (omega arith))

  digits-add : (k n a b : ℕ) → a ≤ n → digits z f (k + n) a b ≡ digits z f n a b
  digits-add zero n a b h = ap (λ (m : ℕ). digits z f m a b) (add.zero n)
  digits-add (suc k) n a b h =
      ap (λ (m : ℕ). digits z f m a b) (add.suc k n)
      ∙ digits-suc (k + n) a b (omega arith)
      ∙ digits-add k n a b h

  lowest_digit :
      (x w : ℕ)
      → bitwise z f (suc x) w ≡ bitwise z f (suc x / 2) (w / 2) * 2 + f (suc x % 2) (w % 2)
  lowest_digit x w =
      ap (λ (d : ℕ). d * 2 + f (suc x % 2) (w % 2))
        (ap (λ (m : ℕ). digits z f m (suc x / 2) (w / 2)) fuel
          ∙ digits-add (x - suc x / 2) (suc x / 2) (suc x / 2) (w / 2) (omega arith))
    where
      fuel : x ≡ (x - suc x / 2) + suc x / 2
      fuel = omega arith

pub bit_and_step : (x w : ℕ) → bit_and x w ≡ bit_and (x / 2) (w / 2) * 2 + min (x % 2) (w % 2)
bit_and_step zero w = simp bit_and-bitwise (omega arith)
bit_and_step (suc x) w = simp bit_and-bitwise (lowest_digit (λ v. 0) min x w)

pub bit_or_step : (x w : ℕ) → bit_or x w ≡ bit_or (x / 2) (w / 2) * 2 + max (x % 2) (w % 2)
bit_or_step zero w = simp bit_or-bitwise (omega arith)
bit_or_step (suc x) w = simp bit_or-bitwise (lowest_digit (λ v. v) max x w)

differ_digits : (x y : ℕ) → x < 2 → y < 2 → differ x y ≡ (x + y) % 2
differ_digits zero y p q = omega arith
differ_digits (suc zero) zero p q = refl
differ_digits (suc zero) (suc zero) p q = refl
differ_digits (suc zero) (suc (suc y)) p q = absurd (omega arith)
differ_digits (suc (suc x)) y p q = absurd (omega arith)

bit_xor_step : (a b : ℕ) → bit_xor a b ≡ bit_xor (a / 2) (b / 2) * 2 + (a + b) % 2
bit_xor_step zero b = simp bit_xor-bitwise (omega arith)
bit_xor_step (suc a) b = omega (
  arith,
  bit_xor-bitwise (suc a) b,
  bit_xor-bitwise (suc a / 2) (b / 2),
  lowest_digit (λ y. y) differ a b,
  differ_digits (suc a % 2) (b % 2) (omega arith) (omega arith),
)

-- Zero on either side.
pub zero-bit_and : (b : ℕ) → bit_and 0 b ≡ 0
zero-bit_and b = bit_and-bitwise 0 b

pub zero-bit_or : (b : ℕ) → bit_or 0 b ≡ b
zero-bit_or b = bit_or-bitwise 0 b

pub zero-bit_xor : (b : ℕ) → bit_xor 0 b ≡ b
zero-bit_xor b = bit_xor-bitwise 0 b

-- Laws over words of `k` bits go by recursion on `k`.
pow_two-suc : (k : ℕ) → 2 ^ suc k ≡ 2 * 2 ^ k
pow_two-suc k = omega (arith, pow-suc 2 k)

bit_and-zero_upto : (n a : ℕ) → a ≤ n → bit_and a 0 ≡ 0
bit_and-zero_upto n zero h = zero-bit_and 0
bit_and-zero_upto zero (suc a) h = absurd (omega arith)
bit_and-zero_upto (suc n) (suc a) h =
    omega (arith, bit_and_step (suc a) 0, bit_and-zero_upto n (suc a / 2) (omega arith))

pub bit_and-zero : (a : ℕ) → bit_and a 0 ≡ 0
bit_and-zero a = bit_and-zero_upto a a (omega arith)

pub bit_xor-lt : (k a b : ℕ) → a < 2 ^ k → b < 2 ^ k → bit_xor a b < 2 ^ k
bit_xor-lt zero a b p q = let e : a ≡ 0 = omega arith in rw (e, zero-bit_xor) q
bit_xor-lt (suc k) a b p q = omega (
  arith,
  pow_two-suc k,
  bit_xor_step a b,
  bit_xor-lt k (a / 2) (b / 2) (omega (arith, pow_two-suc k)) (omega (arith, pow_two-suc k)),
)

-- `^` by one word loses nothing.
pub bit_xor_cancel :
    (k a b c : ℕ) → a < 2 ^ k → b < 2 ^ k → c < 2 ^ k → bit_xor a c ≡ bit_xor b c → a ≡ b
bit_xor_cancel zero a b c p q r e = omega arith
bit_xor_cancel (suc k) a b c p q r e = omega (
  arith,
  pow_two-suc k,
  bit_xor_step a c,
  bit_xor_step b c,
  bit_xor_cancel k (a / 2) (b / 2) (c / 2) (omega (arith, pow_two-suc k))
      (omega (arith, pow_two-suc k)) (omega (arith, pow_two-suc k))
      (omega (arith, bit_xor_step a c, bit_xor_step b c)),
)

pub bit_xor_comm : (k a b : ℕ) → a < 2 ^ k → b < 2 ^ k → bit_xor a b ≡ bit_xor b a
bit_xor_comm zero a b p q = let e : a ≡ b = omega arith in rw e
bit_xor_comm (suc k) a b p q = omega (
  arith,
  bit_xor_step a b,
  bit_xor_step b a,
  bit_xor_comm k (a / 2) (b / 2) (omega (arith, pow_two-suc k)) (omega (arith, pow_two-suc k)),
)

-- A digit above the other word's stays set.
pub bit_xor_high : (k x p : ℕ) → x < 2 ^ k → 2 ^ k ≤ p → p < 2 ^ suc k → 2 ^ k ≤ bit_xor x p
bit_xor_high zero x p h lo hi = let e : x ≡ 0 = omega arith in rw (e, zero-bit_xor) lo
bit_xor_high (suc k) x p h lo hi = omega (
  arith,
  pow_two-suc k,
  bit_xor_step x p,
  bit_xor_high k (x / 2) (p / 2) (omega (arith, pow_two-suc k)) (omega (arith, pow_two-suc k))
      (omega (arith, pow_two-suc k, pow_two-suc (suc k))),
)
