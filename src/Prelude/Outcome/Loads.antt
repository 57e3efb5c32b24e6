-- ===== src/Prelude/Outcome/Loads.antt =====
-- Little-endian loads of bytes that were stored, and loads behind a prefix.
use Prim.Native.Nat.{ℕ, ◌+◌, ◌*◌, ◌/◌, ◌%◌, ◌^◌, ◌<◌, ◌≤◌, bit_or}
use mathlib.Core.Path.{◌≡◌, refl, ap}
use mathlib.Core.List.{List, ◌++◌}
use native.Mathlib.Omega.{arith}
use atarix.Prelude.Lists.{length, get_elem?-append, get_elem?-append_front}
use atarix.Prelude.Bits.Masks.{bit_or_disjoint}
use atarix.Prelude.Outcome.{Outcome, value, or_fault, byte_at, read_le16, read_le32, read_le64}

module _ {E : Type 0} (xs ys : List ℕ) where
  pub byte_at-append : (i : ℕ) → byte_at {E = E} (xs ++ ys) (length xs + i) ≡ byte_at ys i
  byte_at-append i = ap or_fault (get_elem?-append xs ys i)

  byte_at-append_at : (i j : ℕ) → j ≡ length xs + i → byte_at {E = E} (xs ++ ys) j ≡ byte_at ys i
  byte_at-append_at i j e = rw e (byte_at-append i)

  pub read_le16-append : (i : ℕ) → read_le16 {E = E} (xs ++ ys) (length xs + i) ≡ read_le16 ys i
  unfolding read_le16
  read_le16-append i =
      rw (byte_at-append i, byte_at-append_at (i + 1) (length xs + i + 1) (omega arith)) refl

  pub read_le32-append : (i : ℕ) → read_le32 {E = E} (xs ++ ys) (length xs + i) ≡ read_le32 ys i
  unfolding read_le32
  read_le32-append i =
      rw
        (
          byte_at-append i,
          byte_at-append_at (i + 1) (length xs + i + 1) (omega arith),
          byte_at-append_at (i + 2) (length xs + i + 2) (omega arith),
          byte_at-append_at (i + 3) (length xs + i + 3) (omega arith),
        )
        refl

  pub read_le64-append : (i : ℕ) → read_le64 {E = E} (xs ++ ys) (length xs + i) ≡ read_le64 ys i
  unfolding read_le64
  read_le64-append i =
      let e : length xs + i + 4 ≡ length xs + (i + 4) = omega arith in
      rw (read_le32-append i, e, read_le32-append (i + 4)) refl

module _ {E : Type 0} (xs ys : List ℕ) where
  byte_at-front : (i : ℕ) → i < length xs → byte_at {E = E} (xs ++ ys) i ≡ byte_at xs i
  byte_at-front i h = ap or_fault (get_elem?-append_front xs ys i h)

  pub read_le32-front :
      (i : ℕ) → i + 4 ≤ length xs → read_le32 {E = E} (xs ++ ys) i ≡ read_le32 xs i
  unfolding read_le32
  read_le32-front i h =
      rw
        (
          byte_at-front i (omega arith),
          byte_at-front (i + 1) (omega arith),
          byte_at-front (i + 2) (omega arith),
          byte_at-front (i + 3) (omega arith),
        )
        refl

  pub read_le64-front :
      (i : ℕ) → i + 8 ≤ length xs → read_le64 {E = E} (xs ++ ys) i ≡ read_le64 xs i
  unfolding read_le64
  read_le64-front i h =
      rw (read_le32-front i (omega arith), read_le32-front (i + 4) (omega arith)) refl

pub join16 : (v : ℕ) → v < 2 ^ 16 → bit_or (v % 2 ^ 8) (v / 2 ^ 8 % 2 ^ 8 * 2 ^ 8) ≡ v
join16 v h = omega (arith, bit_or_disjoint 8 (v % 2 ^ 8) (v / 2 ^ 8 % 2 ^ 8) (omega arith))

pub join32 :
    (v : ℕ)
    → v < 2 ^ 32
    → bit_or
        (bit_or (bit_or (v % 2 ^ 8) (v / 2 ^ 8 % 2 ^ 8 * 2 ^ 8)) (v / 2 ^ 16 % 2 ^ 8 * 2 ^ 16))
        (v / 2 ^ 24 % 2 ^ 8 * 2 ^ 24)
      ≡ v
join32 v h =
    let two : bit_or (v % 2 ^ 8) (v / 2 ^ 8 % 2 ^ 8 * 2 ^ 8) ≡ v % 2 ^ 16 =
      omega (arith, bit_or_disjoint 8 (v % 2 ^ 8) (v / 2 ^ 8 % 2 ^ 8) (omega arith)) in
    let three : bit_or (v % 2 ^ 16) (v / 2 ^ 16 % 2 ^ 8 * 2 ^ 16) ≡ v % 2 ^ 24 =
      omega (arith, bit_or_disjoint 16 (v % 2 ^ 16) (v / 2 ^ 16 % 2 ^ 8) (omega arith)) in
    rw (two, three)
      (omega (arith, bit_or_disjoint 24 (v % 2 ^ 24) (v / 2 ^ 24 % 2 ^ 8) (omega arith)))

join64 : (v : ℕ) → v < 2 ^ 64 → bit_or (v % 2 ^ 32) (v / 2 ^ 32 % 2 ^ 32 * 2 ^ 32) ≡ v
join64 v h = omega (arith, bit_or_disjoint 32 (v % 2 ^ 32) (v / 2 ^ 32 % 2 ^ 32) (omega arith))

-- The eight bytes of a word, each half stored on its own, joined.
abbrev join_bytes : ℕ → ℕ
join_bytes v =
    bit_or (bit_or (bit_or (v % 2 ^ 8) (v / 2 ^ 8 % 2 ^ 8 * 2 ^ 8)) (v / 2 ^ 16 % 2 ^ 8 * 2 ^ 16))
      (v / 2 ^ 24 % 2 ^ 8 * 2 ^ 24)

pub word64 :
    {E : Type 0} (v : ℕ)
    → v < 2 ^ 64
    → ◌≡◌ {A = Outcome E ℕ}
        (value (bit_or (join_bytes (v % 2 ^ 32)) (join_bytes (v / 2 ^ 32 % 2 ^ 32) * 2 ^ 32)))
        (value v)
word64 v small =
    let low : v % 2 ^ 32 < 2 ^ 32 = omega arith in
    let high : v / 2 ^ 32 % 2 ^ 32 < 2 ^ 32 = omega arith in
    rw (join32 (v % 2 ^ 32) low, join32 (v / 2 ^ 32 % 2 ^ 32) high) (ap value (join64 v small))
