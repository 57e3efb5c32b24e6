-- ===== src/Prelude/Outcome/Rules.antt =====
-- What runs of memory-reading code do, by rules that follow their binds and guards.
use Prim.Native.Nat.{ℕ, zero, suc, ◌+◌, ◌*◌, ◌^◌, ◌<◌, ◌≤◌, bit_or}
use mathlib.Core.Path.{◌≡◌, refl}
use mathlib.Core.Option.{Option, none, some}
use mathlib.Core.List.{List, [], ◌∷◌}
use native.Mathlib.Omega.{arith}
use atarix.Prelude.Lists.{length, get_elem?}
use atarix.Prelude.Tests.{if◌then◌else◌}
use mathlib.Core.Bool.{Bool, true, false}
use atarix.Prelude.Outcome.{
  Outcome, fault, fail, value, ◌>>=◌, or_fault, byte_at, read_le16, read_le32, read_le64,
}

-- What a run does: a fault where `F` holds, an error with `P`, a value with `Q`. With the empty type for
-- `F` no read goes outside of its object; with the unit type nothing is said of faults.
pub data Meets (F : Type 0) {E A : Type 0} (P : E → Type 0) (Q : A → Type 0)
    : Outcome E A → Type 0 where
  faults : F → Meets F P Q fault
  fails : {e : E} → P e → Meets F P Q (fail e)
  gives : {a : A} → Q a → Meets F P Q (value a)

abbrev pub Any : {A : Type 0} → A → Type 0
Any a = Unit

module _ {F E : Type 0} {P : E → Type 0} where
  pub Meets-bind :
      {A B : Type 0} {Q : A → Type 0} {R : B → Type 0} (m : Outcome E A) (f : A → Outcome E B)
      → Meets F P Q m
      → ((a : A) → Q a → Meets F P R (f a))
      → Meets F P R (m >>= f)
  Meets-bind _ f (faults x) k = faults x
  Meets-bind _ f (fails p) k = fails p
  Meets-bind _ f (gives {a} q) k = k a q

  pub Meets-if :
      {A : Type 0} {Q : A → Type 0} (b : Bool) (m n : Outcome E A)
      → (b ≡ true → Meets F P Q m)
      → (b ≡ false → Meets F P Q n)
      → Meets F P Q (if b then m else n)
  Meets-if true m n k l = k refl
  Meets-if false m n k l = l refl

  pub Meets-guard :
      {A : Type 0} {Q : A → Type 0} (b : Bool) (e : E) (m : Outcome E A)
      → P e
      → (b ≡ false → Meets F P Q m)
      → Meets F P Q (if b then fail e else m)
  Meets-guard true e m p k = fails p
  Meets-guard false e m p k = k refl

  pub Meets-value : {A : Type 0} {m : Outcome E A} → (a : A) × (m ≡ value a) → Meets F P Any m
  Meets-value (a, e) = rw e (gives tt)

  -- A load either faults or returns.
  pub byte_at-Meets : F → (buffer : List ℕ) (i : ℕ) → Meets F P Any (byte_at {E = E} buffer i)
  byte_at-Meets f [] i = faults f
  byte_at-Meets f (x ∷ xs) zero = gives tt
  byte_at-Meets f (x ∷ xs) (suc i) = byte_at-Meets f xs i

  pub read_le16-Meets : F → (buffer : List ℕ) (p : ℕ) → Meets F P Any (read_le16 {E = E} buffer p)
  unfolding read_le16
  read_le16-Meets f buffer p =
      Meets-bind (byte_at buffer p) _ (byte_at-Meets f buffer p) λ a _.
        Meets-bind (byte_at buffer (p + 1)) _ (byte_at-Meets f buffer (p + 1)) λ b _. gives tt

  pub read_le32-Meets : F → (buffer : List ℕ) (p : ℕ) → Meets F P Any (read_le32 {E = E} buffer p)
  unfolding read_le32
  read_le32-Meets f buffer p = Meets-bind (byte_at buffer p) _ (byte_at-Meets f buffer p) λ a _.
      Meets-bind (byte_at buffer (p + 1)) _ (byte_at-Meets f buffer (p + 1)) λ b _.
        Meets-bind (byte_at buffer (p + 2)) _ (byte_at-Meets f buffer (p + 2)) λ c _.
          Meets-bind (byte_at buffer (p + 3)) _ (byte_at-Meets f buffer (p + 3)) λ d _. gives tt

  pub read_le64-Meets : F → (buffer : List ℕ) (p : ℕ) → Meets F P Any (read_le64 {E = E} buffer p)
  unfolding read_le64
  read_le64-Meets f buffer p =
      Meets-bind (read_le32 buffer p) _ (read_le32-Meets f buffer p) λ low _.
        Meets-bind (read_le32 buffer (p + 4)) _ (read_le32-Meets f buffer (p + 4))
          λ high _. gives tt

pub Meets-mono :
    {F E A : Type 0} {P P' : E → Type 0} {Q : A → Type 0} {m : Outcome E A}
    → ((e : E) → P e → P' e)
    → Meets F P Q m
    → Meets F P' Q m
Meets-mono weaken (faults x) = faults x
Meets-mono weaken (fails {e} p) = fails (weaken e p)
Meets-mono weaken (gives q) = gives q

-- What a load returns does not depend on the type of the errors around it.
pub read_le16_any :
    {E E' : Type 0} (buffer : List ℕ) (p : ℕ) {v : ℕ}
    → read_le16 {E = E} buffer p ≡ value v
    → read_le16 {E = E'} buffer p ≡ value v
unfolding read_le16
read_le16_any {E} {E'} buffer p {v} = go (get_elem? buffer p) (get_elem? buffer (p + 1))
  where
    go :
        (x y : Option ℕ)
        → (or_fault {E = E} x >>= λ a. or_fault y >>= λ b. value (bit_or a (b * 2 ^ 8))) ≡ value v
        → (or_fault {E = E'} x >>= λ a. or_fault y >>= λ b. value (bit_or a (b * 2 ^ 8))) ≡ value v
    go none y h = cc
    go (some a) none h = cc
    go (some a) (some b) h = let same : bit_or a (b * 2 ^ 8) ≡ v = cc in rw same refl

pub read_le32_any :
    {E E' : Type 0} (buffer : List ℕ) (p : ℕ) {v : ℕ}
    → read_le32 {E = E} buffer p ≡ value v
    → read_le32 {E = E'} buffer p ≡ value v
unfolding read_le32
read_le32_any {E} {E'} buffer p {v} =
    go (get_elem? buffer p) (get_elem? buffer (p + 1)) (get_elem? buffer (p + 2))
      (get_elem? buffer (p + 3))
  where
    word : {E : Type 0} → Option ℕ → Option ℕ → Option ℕ → Option ℕ → Outcome E ℕ
    word x y z w = or_fault x >>= λ a. or_fault y >>= λ b. or_fault z >>= λ c.
        or_fault w >>= λ d. value (bit_or (bit_or (bit_or a (b * 2 ^ 8)) (c * 2 ^ 16)) (d * 2 ^ 24))

    go : (x y z w : Option ℕ) → word {E = E} x y z w ≡ value v → word {E = E'} x y z w ≡ value v
    go none y z w h = cc
    go (some a) none z w h = cc
    go (some a) (some b) none w h = cc
    go (some a) (some b) (some c) none h = cc
    go (some a) (some b) (some c) (some d) h =
        let same : bit_or (bit_or (bit_or a (b * 2 ^ 8)) (c * 2 ^ 16)) (d * 2 ^ 24) ≡ v = cc in
        rw same refl

-- A load that reaches past its object is a fault.
get_elem?-past : {A : Type 0} (xs : List A) (i : ℕ) → length xs ≤ i → get_elem? xs i ≡ none
get_elem?-past [] i h = refl
get_elem?-past (x ∷ xs) zero h = absurd (omega arith)
get_elem?-past (x ∷ xs) (suc i) h = get_elem?-past xs i (omega arith)

no_error_then :
    {E A B : Type 0} {m : Outcome E A} {f : A → Outcome E B}
    → Meets Unit (λ _. ⊥) Any m
    → ((a : A) → f a ≡ fault)
    → (m >>= f) ≡ fault
no_error_then (faults x) k = refl
no_error_then (fails x) k = absurd x
no_error_then (gives {a} x) k = k a

read_le32_past :
    {E : Type 0} (buffer : List ℕ) (p : ℕ)
    → length buffer < p + 4
    → read_le32 {E = E} buffer p ≡ fault
unfolding read_le32
read_le32_past buffer p h =
    let last : get_elem? buffer (p + 3) ≡ none = get_elem?-past buffer (p + 3) (omega arith) in
    no_error_then (byte_at-Meets tt buffer p) λ a.
      no_error_then (byte_at-Meets tt buffer (p + 1))
        λ b. no_error_then (byte_at-Meets tt buffer (p + 2)) λ c. rw last refl

pub read_le64_past :
    {E : Type 0} (buffer : List ℕ) (p : ℕ)
    → length buffer < p + 8
    → read_le64 {E = E} buffer p ≡ fault
unfolding read_le64
read_le64_past {E} buffer p h =
    let high : read_le32 {E = E} buffer (p + 4) ≡ fault =
      read_le32_past buffer (p + 4) (omega arith) in
    no_error_then (read_le32-Meets tt buffer p) λ low. rw high refl
