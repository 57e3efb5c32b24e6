-- ===== src/Prelude/Outcome.antt =====
-- Code that reads memory through pointers: a read outside the object is a fault, which C leaves
-- undefined; an error is the code's own; a value is a normal result.
pub mod Rules
pub mod Loads
use Prim.Native.Nat.{ℕ, zero, suc, ◌+◌, ◌*◌, ◌^◌, ◌<◌, ◌≤◌, bit_or}
use mathlib.Core.Path.{◌≡◌, refl}
use mathlib.Core.Logic.{◌≢◌}
use mathlib.Core.Option.{Option, none, some}
use mathlib.Core.List.{List, [], ◌∷◌}
use native.Mathlib.Omega.{arith}
use atarix.Prelude.Lists.{length, get_elem?}
use atarix.Prelude.Tests.{if◌then◌else◌}
use mathlib.Core.Bool.{Bool, true, false}

pub data Outcome (E A : Type 0) : Type 0 where
  fault : Outcome E A
  fail : E → Outcome E A
  value : A → Outcome E A

infixl 5 ◌>>=◌
abbrev pub ◌>>=◌ : {E A B : Type 0} → Outcome E A → (A → Outcome E B) → Outcome E B
fault >>= f = fault
fail e >>= f = fail e
value a >>= f = f a

abbrev pub or_fault : {E A : Type 0} → Option A → Outcome E A
or_fault none = fault
or_fault (some a) = value a

-- `p[i]` of an object of bytes.
abbrev pub byte_at : {E : Type 0} → List ℕ → ℕ → Outcome E ℕ
byte_at buffer i = or_fault (get_elem? buffer i)

pub byte_at-value :
    {E : Type 0} (buffer : List ℕ) (i : ℕ)
    → i < length buffer
    → (b : ℕ) × (byte_at {E = E} buffer i ≡ value b)
byte_at-value [] i h = absurd (omega arith)
byte_at-value (x ∷ xs) zero h = (x, refl)
byte_at-value (x ∷ xs) (suc i) h = byte_at-value xs i (omega arith)

-- Little-endian loads, as `(uint32_t)p[0] | ((uint32_t)p[1] << 8) | …`.
unfoldable pub read_le16 : {E : Type 0} → List ℕ → ℕ → Outcome E ℕ
read_le16 buffer p = do
  a ← byte_at buffer p
  b ← byte_at buffer (p + 1)
  value (bit_or a (b * 2 ^ 8))

unfoldable pub read_le32 : {E : Type 0} → List ℕ → ℕ → Outcome E ℕ
read_le32 buffer p = do
  a ← byte_at buffer p
  b ← byte_at buffer (p + 1)
  c ← byte_at buffer (p + 2)
  d ← byte_at buffer (p + 3)
  value (bit_or (bit_or (bit_or a (b * 2 ^ 8)) (c * 2 ^ 16)) (d * 2 ^ 24))

unfoldable pub read_le64 : {E : Type 0} → List ℕ → ℕ → Outcome E ℕ
read_le64 buffer p = do
  low ← read_le32 buffer p
  high ← read_le32 buffer (p + 4)
  value (bit_or low (high * 2 ^ 32))

module _ {E : Type 0} (buffer : List ℕ) (p : ℕ) where
  pub read_le16-value : p + 2 ≤ length buffer → (v : ℕ) × (read_le16 {E = E} buffer p ≡ value v)
  unfolding read_le16
  read_le16-value h =
      let (a, ea) = byte_at-value {E = E} buffer p (omega arith) in
      let (b, eb) = byte_at-value {E = E} buffer (p + 1) (omega arith) in
      (bit_or a (b * 2 ^ 8), rw (ea, eb))

  pub read_le32-value : p + 4 ≤ length buffer → (v : ℕ) × (read_le32 {E = E} buffer p ≡ value v)
  unfolding read_le32
  read_le32-value h =
      let (a, ea) = byte_at-value {E = E} buffer p (omega arith) in
      let (b, eb) = byte_at-value {E = E} buffer (p + 1) (omega arith) in
      let (c, ec) = byte_at-value {E = E} buffer (p + 2) (omega arith) in
      let (d, ed) = byte_at-value {E = E} buffer (p + 3) (omega arith) in
      (bit_or (bit_or (bit_or a (b * 2 ^ 8)) (c * 2 ^ 16)) (d * 2 ^ 24), rw (ea, eb, ec, ed))

pub read_le64-value :
    {E : Type 0} (buffer : List ℕ) (p : ℕ)
    → p + 8 ≤ length buffer
    → (v : ℕ) × (read_le64 {E = E} buffer p ≡ value v)
unfolding read_le64
read_le64-value {E} buffer p h =
    let (a, ea) = read_le32-value {E = E} buffer p (omega arith) in
    let (b, eb) = read_le32-value {E = E} buffer (p + 4) (omega arith) in
    (bit_or a (b * 2 ^ 32), rw (ea, eb))

-- No read went outside of its object.
abbrev pub IsSafe : {E A : Type 0} → Outcome E A → Type 0
IsSafe m = m ≢ fault

pub IsSafe-value : {E A : Type 0} {m : Outcome E A} → (a : A) × (m ≡ value a) → IsSafe m
IsSafe-value (a, e) h = cc

pub IsSafe-bind :
    {E A B : Type 0} (m : Outcome E A) (f : A → Outcome E B)
    → IsSafe m
    → ((a : A) → m ≡ value a → IsSafe (f a))
    → IsSafe (m >>= f)
IsSafe-bind fault f h k = absurd (h refl)
IsSafe-bind (fail e) f h k = λ p. cc
IsSafe-bind (value a) f h k = k a refl

pub IsSafe-if :
    {E A : Type 0} (b : Bool) (m n : Outcome E A)
    → (b ≡ true → IsSafe m)
    → (b ≡ false → IsSafe n)
    → IsSafe (if b then m else n)
IsSafe-if true m n k l = k refl
IsSafe-if false m n k l = l refl

-- An error return guards the rest.
pub IsSafe-guard :
    {E A : Type 0} (b : Bool) (e : E) (m : Outcome E A)
    → (b ≡ false → IsSafe m)
    → IsSafe (if b then fail e else m)
IsSafe-guard true e m k = λ p. cc
IsSafe-guard false e m k = k refl

-- A read that is in range, and what follows it.
pub IsSafe-read :
    {E A B : Type 0} {m : Outcome E A} {f : A → Outcome E B}
    → (a : A) × (m ≡ value a)
    → ((a : A) → IsSafe (f a))
    → IsSafe (m >>= f)
IsSafe-read {m} {f} r k = IsSafe-bind m f (IsSafe-value r) (λ a _. k a)

pub value_injective : {E A : Type 0} {a b : A} → ◌≡◌ {A = Outcome E A} (value a) (value b) → a ≡ b
value_injective h = cc

-- A bind that returned did so through both parts.
pub >>=-eq-value :
    {E A B : Type 0} (m : Outcome E A) (f : A → Outcome E B) {b : B}
    → (m >>= f) ≡ value b
    → (a : A) × (m ≡ value a) × (f a ≡ value b)
>>=-eq-value fault f h = cc
>>=-eq-value (fail e) f h = cc
>>=-eq-value (value a) f h = (a, refl, h)

-- A test that guards an error was passed by a run that returned.
pub guard-eq-value :
    {E A : Type 0} (b : Bool) (e : E) (m : Outcome E A) {a : A}
    → (if b then fail e else m) ≡ value a
    → (b ≡ false) × (m ≡ value a)
guard-eq-value true e m h = cc
guard-eq-value false e m h = (refl, h)
