-- ===== src/Prelude/Bits/Masks.antt =====
-- Masks, shifted words and complements.
use Prim.Native.Nat.{ℕ, zero, suc, ◌+◌, ◌-◌, ◌*◌, ◌/◌, ◌%◌, ◌^◌, ◌≤◌, ◌<◌}
use Prim.Native.Nat.{bit_and, bit_or}
use mathlib.Core.Path.{◌≡◌, refl, sym, ◌∙◌, ap}
use native.Mathlib.Nat.{
  one-le-pow, mod-lt, mod-eq_of_lt, div-add-mod, mul_assoc, add-mul-mod_self_left, div-one,
  div-div-eq-div-mul,
}
use native.Mathlib.Decide.{dec_lt}
use native.Mathlib.Omega.{arith}
use atarix.Prelude.Bits.{
  bit_and_step, bit_or_step, zero-bit_and, zero-bit_or, pow_two-suc, bit_and-zero,
}

mod_two-mul : (a m : ℕ) → 0 < m → a % (2 * m) ≡ a / 2 % m * 2 + a % 2
mod_two-mul a m h =
    ap (λ (n : ℕ). n % (2 * m)) whole
    ∙ add-mul-mod_self_left (a / 2 % m * 2 + a % 2) (2 * m) (a / 2 / m)
    ∙ mod-eq_of_lt (omega (arith, mod-lt (a / 2) h))
  where
    whole : a ≡ (a / 2 % m * 2 + a % 2) + 2 * m * (a / 2 / m)
    whole = omega (arith, div-add-mod (a / 2) m, mul_assoc 2 m (a / 2 / m))

-- `&` with `k` low ones is the remainder.
pub bit_and_mask : (k a : ℕ) → bit_and a (2 ^ k - 1) ≡ a % 2 ^ k
bit_and_mask zero a = rw bit_and-zero (omega arith)
bit_and_mask (suc k) a =
    let half : (2 ^ suc k - 1) / 2 ≡ 2 ^ k - 1 = omega (arith, pow_two-suc k) in
    omega (
      arith,
      pow_two-suc k,
      one-le-pow k 2 (omega arith),
      bit_and_step a (2 ^ suc k - 1),
      ap (λ (n : ℕ). bit_and (a / 2) n) half,
      bit_and_mask k (a / 2),
      ap (λ (n : ℕ). a % n) (pow_two-suc k),
      mod_two-mul a (2 ^ k) (one-le-pow k 2 (omega arith)),
    )

mul-two-pow-suc : (m k : ℕ) → m * 2 ^ suc k ≡ 2 * (m * 2 ^ k)
mul-two-pow-suc m k = omega (arith, ap (λ (t : ℕ). m * t) (pow_two-suc k))

div_pow_two-suc : (a k : ℕ) → a / 2 ^ suc k ≡ a / 2 / 2 ^ k
div_pow_two-suc a k = ap (λ (n : ℕ). a / n) (pow_two-suc k) ∙ sym (div-div-eq-div-mul a 2 (2 ^ k))

-- A mask whose `k` low digits are zero reads the number above them.
pub bit_and_shifted : (k a m : ℕ) → bit_and a (m * 2 ^ k) ≡ bit_and (a / 2 ^ k) m * 2 ^ k
bit_and_shifted zero a m = let e : m * 2 ^ 0 ≡ m = omega arith in rw (e, div-one) (omega arith)
bit_and_shifted (suc k) a m = omega (
  arith,
  bit_and_step a (m * 2 ^ suc k),
  mul-two-pow-suc m k,
  mul-two-pow-suc (bit_and (a / 2 ^ suc k) m) k,
  ap (λ (n : ℕ). bit_and (a / 2) n) half,
  ap (λ (n : ℕ). bit_and n m * 2 ^ k) (div_pow_two-suc a k),
  bit_and_shifted k (a / 2) m,
)
  where
    half : m * 2 ^ suc k / 2 ≡ m * 2 ^ k
    half = omega (arith, mul-two-pow-suc m k)

bit_or-zero_upto : (n a : ℕ) → a ≤ n → bit_or a 0 ≡ a
bit_or-zero_upto zero a h = let e : a ≡ 0 = omega arith in rw (e, zero-bit_or) refl
bit_or-zero_upto (suc n) a h = elim (dec_lt 0 a) [
  | yes p ↦ omega (arith, bit_or_step a 0, bit_or-zero_upto n (a / 2) (omega arith))
  | no p ↦ let e : a ≡ 0 = omega arith in rw (e, zero-bit_or) refl
]

-- `(a << k) | b`, likewise.
pub bit_or_above : (k a b : ℕ) → b < 2 ^ k → bit_or (a * 2 ^ k) b ≡ a * 2 ^ k + b
bit_or_above zero a b h =
    let e : b ≡ 0 = omega arith in
    rw e (bit_or-zero_upto (a * 2 ^ 0) (a * 2 ^ 0) (omega arith) ∙ omega arith)
bit_or_above (suc k) a b h = omega (
  arith,
  pow_two-suc k,
  bit_or_step (a * 2 ^ suc k) b,
  mul-two-pow-suc a k,
  ap (λ (n : ℕ). bit_or n (b / 2)) half,
  bit_or_above k a (b / 2) (omega (arith, pow_two-suc k)),
)
  where
    half : a * 2 ^ suc k / 2 ≡ a * 2 ^ k
    half = omega (arith, mul-two-pow-suc a k)

-- `c & ~p == 0`: every digit of `c` is one of `p`.
pub bit_and_complement_zero :
    (w k c p : ℕ)
    → k < w
    → p < 2 ^ w
    → bit_and c (2 ^ w - 1 - p) ≡ 0
    → c / 2 ^ k % 2 ≤ p / 2 ^ k % 2
bit_and_complement_zero zero k c p h q e = absurd (omega arith)
bit_and_complement_zero (suc w) zero c p h q e =
    simp div-one (omega (arith, pow_two-suc w, bit_and_step c (2 ^ suc w - 1 - p)))
bit_and_complement_zero (suc w) (suc k) c p h q e =
    rw (div_pow_two-suc c k, div_pow_two-suc p k)
      (bit_and_complement_zero w k (c / 2) (p / 2) (omega arith) (omega (arith, pow_two-suc w))
        halves)
  where
    half : (2 ^ suc w - 1 - p) / 2 ≡ 2 ^ w - 1 - p / 2
    half = omega (arith, pow_two-suc w)

    halves : bit_and (c / 2) (2 ^ w - 1 - p / 2) ≡ 0
    halves =
        omega (arith, bit_and_step c (2 ^ suc w - 1 - p), ap (λ (n : ℕ). bit_and (c / 2) n) half)

complement_half : (w p : ℕ) → p < 2 ^ suc w → (2 ^ suc w - 1 - p) / 2 ≡ 2 ^ w - 1 - p / 2
complement_half w p h = omega (arith, pow_two-suc w)

pub bit_and_complement_self : (w a : ℕ) → a < 2 ^ w → bit_and a (2 ^ w - 1 - a) ≡ 0
bit_and_complement_self zero a h = let e : a ≡ 0 = omega arith in rw (e, zero-bit_and)
bit_and_complement_self (suc w) a h = omega (
  arith,
  pow_two-suc w,
  bit_and_step a (2 ^ suc w - 1 - a),
  ap (λ (n : ℕ). bit_and (a / 2) n) (complement_half w a h),
  bit_and_complement_self w (a / 2) (omega (arith, pow_two-suc w)),
)

pub bit_and_complement_trans :
    (w a b c : ℕ)
    → a < 2 ^ w
    → b < 2 ^ w
    → c < 2 ^ w
    → bit_and a (2 ^ w - 1 - b) ≡ 0
    → bit_and b (2 ^ w - 1 - c) ≡ 0
    → bit_and a (2 ^ w - 1 - c) ≡ 0
bit_and_complement_trans zero a b c p q r ab bc =
    let e : a ≡ 0 = omega arith in rw (e, zero-bit_and)
bit_and_complement_trans (suc w) a b c p q r ab bc = omega (
  arith,
  pow_two-suc w,
  bit_and_step a (2 ^ suc w - 1 - b),
  bit_and_step b (2 ^ suc w - 1 - c),
  bit_and_step a (2 ^ suc w - 1 - c),
  ap (λ (n : ℕ). bit_and (a / 2) n) (complement_half w c r),
  bit_and_complement_trans w (a / 2) (b / 2) (c / 2) (omega (arith, pow_two-suc w))
      (omega (arith, pow_two-suc w)) (omega (arith, pow_two-suc w)) ab_half bc_half,
)
  where
    ab_half : bit_and (a / 2) (2 ^ w - 1 - b / 2) ≡ 0
    ab_half = omega (
      arith,
      bit_and_step a (2 ^ suc w - 1 - b),
      ap (λ (n : ℕ). bit_and (a / 2) n) (complement_half w b q),
    )

    bc_half : bit_and (b / 2) (2 ^ w - 1 - c / 2) ≡ 0
    bc_half = omega (
      arith,
      bit_and_step b (2 ^ suc w - 1 - c),
      ap (λ (n : ℕ). bit_and (b / 2) n) (complement_half w c r),
    )

-- `a | (b << k)`, where `a` keeps below the shifted word.
pub bit_or_disjoint : (k a b : ℕ) → a < 2 ^ k → bit_or a (b * 2 ^ k) ≡ a + b * 2 ^ k
bit_or_disjoint zero a b h = let e : a ≡ 0 = omega arith in rw (e, zero-bit_or) (omega arith)
bit_or_disjoint (suc k) a b h = omega (
  arith,
  pow_two-suc k,
  bit_or_step a (b * 2 ^ suc k),
  mul-two-pow-suc b k,
  ap (λ (n : ℕ). bit_or (a / 2) n) half,
  bit_or_disjoint k (a / 2) b (omega (arith, pow_two-suc k)),
)
  where
    half : b * 2 ^ suc k / 2 ≡ b * 2 ^ k
    half = omega (arith, mul-two-pow-suc b k)
