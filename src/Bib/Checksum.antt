-- ===== src/Bib/Checksum.antt =====
-- The CRC-32C of bib_builder.c and the one of bib_reader.c: the reflected CRC of one generator.
use native.Mathlib.Decide.{dec_lt}
use atarix.Prelude.{
  ℕ, zero, suc, ◌+◌, ◌-◌, ◌/◌, ◌^◌, ◌≤◌, ◌<◌, ◌≡◌, refl, sym, ap, ◌∙◌, Bool, true, false, not, ◌&&◌,
  some, List, [], ◌∷◌, ◌++◌, length, get_elem?, get_elem?-append, get_elem?-append_front, take,
  length-take, get_elem?-take, subst, bit_and, bit_xor, ltb, leb, ◌==◌, arith, if◌then◌else◌,
}
use atarix.Prelude.Bits.{bit_xor-lt, zero-bit_xor, bit_xor_comm}
use atarix.Prelude.Bits.Masks.{bit_and_mask}
use atarix.Prelude.Outcome.{value, or_fault}
use atarix.Crc.{bit_step, bit_steps, update, IsGenerator}
use atarix.Crc.Detect.{AreBytes, bit_step-lt, bit_steps-lt, update-lt}
use atarix.Bib.Builder
use atarix.Bib.Builder.{crc32c_update, crc32c, u32_max}
use atarix.Bib.Reader.{byte_zeroed, crc32c_bits, crc32c_zeroed_from, crc32c_with_zeroed_field}

abbrev pub generator : ℕ
generator = 0x82F63B78

pub generator-IsGenerator : IsGenerator generator
generator-IsGenerator = (omega arith, omega arith)

crc_halves :
    (half : ℕ) (odd : Bool)
    → half < 2 ^ 32
    → bit_xor half (if odd then generator else 0) ≡ (if odd then bit_xor half generator else half)
crc_halves half true h = refl
crc_halves half false h = bit_xor_comm 32 half 0 h (omega arith) ∙ zero-bit_xor half

crc_step :
    (crc : ℕ)
    → crc < 2 ^ 32
    → bit_xor (crc / 2) (if not (bit_and crc 1 == 0) then generator else 0) ≡ bit_step generator crc
unfolding bit_step
crc_step crc h =
    crc_halves (crc / 2) (not (bit_and crc 1 == 0)) (omega arith)
    ∙ ground (arith, bit_and_mask 1 crc)

builder_bits-eq : (n crc : ℕ) → crc < 2 ^ 32 → Builder.crc32c_bits n crc ≡ bit_steps generator n crc
unfolding Builder.crc32c_bits bit_steps
builder_bits-eq zero crc h = refl
builder_bits-eq (suc n) crc h =
    ap (Builder.crc32c_bits n) (crc_step crc h)
    ∙ builder_bits-eq n (bit_step generator crc) (bit_step-lt generator generator-IsGenerator crc h)

reader_bits-eq : (n crc : ℕ) → crc < 2 ^ 32 → crc32c_bits n crc ≡ bit_steps generator n crc
unfolding crc32c_bits bit_steps
reader_bits-eq zero crc h = refl
reader_bits-eq (suc n) crc h =
    ap (crc32c_bits n) (crc_step crc h)
    ∙ reader_bits-eq n (bit_step generator crc) (bit_step-lt generator generator-IsGenerator crc h)

byte_in-lt : (crc b : ℕ) → crc < 2 ^ 32 → b < 256 → bit_steps generator 8 (bit_xor crc b) < 2 ^ 32
byte_in-lt crc b h small =
    bit_steps-lt generator generator-IsGenerator 8 (bit_xor crc b)
      (bit_xor-lt 32 crc b h (omega arith))

builder_update-eq :
    (crc : ℕ) (bytes : List ℕ)
    → crc < 2 ^ 32
    → AreBytes bytes
    → crc32c_update crc bytes ≡ update generator crc bytes
unfolding crc32c_update update
builder_update-eq crc [] h bs = refl
builder_update-eq crc (b ∷ bytes) h bs =
    ap (λ c. crc32c_update c bytes)
      (builder_bits-eq 8 (bit_xor crc b) (bit_xor-lt 32 crc b h (omega arith)))
    ∙ builder_update-eq (bit_steps generator 8 (bit_xor crc b)) bytes (byte_in-lt crc b h bs.0) bs.1

pub crc32c-eq :
    (bytes : List ℕ) (n : ℕ)
    → AreBytes (take n bytes)
    → crc32c bytes n ≡ bit_xor (update generator u32_max (take n bytes)) u32_max
unfolding crc32c
crc32c-eq bytes n bs =
    ap (λ c. bit_xor c u32_max) (builder_update-eq u32_max (take n bytes) (omega arith) bs)

-- The builder's checksum fits its field.
pub crc32c-lt : (bytes : List ℕ) (n : ℕ) → AreBytes (take n bytes) → crc32c bytes n < 2 ^ 32
unfolding crc32c
crc32c-lt bytes n bs = rw (builder_update-eq u32_max (take n bytes) (omega arith) bs) (
    bit_xor-lt 32 (update generator u32_max (take n bytes)) u32_max
      (update-lt generator generator-IsGenerator u32_max (take n bytes) (omega arith) bs)
      (omega arith))

-- The reader's loop over a buffer `p` that reads like `bytes` from `i` on.
zeroed_from-eq :
    (p : List ℕ) (bytes : List ℕ) (i crc : ℕ)
    → crc < 2 ^ 32
    → AreBytes bytes
    → ((j : ℕ) → j < length bytes → byte_zeroed p (i + j) ≡ or_fault (get_elem? bytes j))
    → crc32c_zeroed_from p (length bytes) i crc ≡ value (update generator crc bytes)
unfolding crc32c_zeroed_from update
zeroed_from-eq p [] i crc h bs reads = refl
zeroed_from-eq p (b ∷ bytes) i crc h bs reads =
    let here : i + 0 ≡ i = omega arith in
    let first : byte_zeroed p i ≡ value b =
      subst (λ n. byte_zeroed p n ≡ value b) here (reads 0 (omega arith)) in
    rw (first, reader_bits-eq 8 (bit_xor crc b) (bit_xor-lt 32 crc b h (omega arith)))
      (zeroed_from-eq p bytes (suc i) (bit_steps generator 8 (bit_xor crc b))
        (byte_in-lt crc b h bs.0) bs.1
        λ j lt.
          let e : suc i + j ≡ i + suc j = omega arith in
          subst (λ n. byte_zeroed p n ≡ or_fault (get_elem? bytes j)) (sym e)
            (reads (suc j) (omega arith)))

-- A buffer whose checksum field holds anything, and the same with zeros in the field.
zeroed-field :
    (xs field zeros ys : List ℕ) (i : ℕ)
    → length xs ≡ 20
    → length field ≡ 4
    → zeros ≡ 0 ∷ 0 ∷ 0 ∷ 0 ∷ []
    → byte_zeroed (xs ++ (field ++ ys)) i ≡ or_fault (get_elem? (xs ++ (zeros ++ ys)) i)
zeroed-field xs field zeros ys i ex ef ez = elim (dec_lt i 20) [
  | yes before ↦
      let test : (leb 20 i && ltb i 24) ≡ false = ground arith in
      rw
        (
          test,
          get_elem?-append_front xs (field ++ ys) i (omega arith),
          get_elem?-append_front xs (zeros ++ ys) i (omega arith),
        )
        refl
  | no from ↦ elim (dec_lt i 24) [
    | yes inside ↦
        let test : (leb 20 i && ltb i 24) ≡ true = ground arith in
        let at : i ≡ length xs + (i - 20) = omega arith in
        rw test (
          ap or_fault (
            sym (
              ap (get_elem? (xs ++ (zeros ++ ys))) at
              ∙ get_elem?-append xs (zeros ++ ys) (i - 20)
              ∙ ap (λ z. get_elem? (z ++ ys) (i - 20)) ez
              ∙ zero_byte ys (i - 20) (omega arith))))
    | no behind ↦
        let test : (leb 20 i && ltb i 24) ≡ false = ground arith in
        let at : i ≡ length xs + (length field + (i - 24)) = omega arith in
        let at' : i ≡ length xs + (length zeros + (i - 24)) =
          omega (arith, ap (λ l. length l) ez) in
        rw test (
          ap or_fault (
            ap (get_elem? (xs ++ (field ++ ys))) at
            ∙ get_elem?-append xs (field ++ ys) (length field + (i - 24))
            ∙ get_elem?-append field ys (i - 24)
            ∙ sym (
                ap (get_elem? (xs ++ (zeros ++ ys))) at'
                ∙ get_elem?-append xs (zeros ++ ys) (length zeros + (i - 24))
                ∙ get_elem?-append zeros ys (i - 24))))
  ]
]
  where
    zero_byte : (ys : List ℕ) (k : ℕ) → k < 4 → get_elem? (0 ∷ 0 ∷ 0 ∷ 0 ∷ ys) k ≡ some 0
    zero_byte ys zero h = refl
    zero_byte ys (suc zero) h = refl
    zero_byte ys (suc (suc zero)) h = refl
    zero_byte ys (suc (suc (suc zero))) h = refl
    zero_byte ys (suc (suc (suc (suc k)))) h = absurd (omega arith)

-- What the reader computes over the buffer is what the builder computed over it while the field was
-- zero.
pub crc32c_zeroed-eq :
    (xs field zeros ys : List ℕ) (n : ℕ)
    → length xs ≡ 20
    → length field ≡ 4
    → zeros ≡ 0 ∷ 0 ∷ 0 ∷ 0 ∷ []
    → n ≤ length (xs ++ (zeros ++ ys))
    → AreBytes (take n (xs ++ (zeros ++ ys)))
    → crc32c_with_zeroed_field (xs ++ (field ++ ys)) n ≡ value (crc32c (xs ++ (zeros ++ ys)) n)
unfolding crc32c_with_zeroed_field crc32c
crc32c_zeroed-eq xs field zeros ys n ex ef ez fits bs =
    let z = xs ++ (zeros ++ ys) in
    let size : length (take n z) ≡ n = omega (arith, length-take n z) in
    let loop : crc32c_zeroed_from (xs ++ (field ++ ys)) n 0 u32_max
        ≡ value (update generator u32_max (take n z)) =
      ap (λ k. crc32c_zeroed_from (xs ++ (field ++ ys)) k 0 u32_max) (sym size)
      ∙ zeroed_from-eq (xs ++ (field ++ ys)) (take n z) 0 u32_max (omega arith) bs (λ j lt.
        let e : 0 + j ≡ j = omega arith in
        ap (byte_zeroed (xs ++ (field ++ ys))) e
        ∙ zeroed-field xs field zeros ys j ex ef ez
        ∙ sym (ap or_fault (get_elem?-take n z j (omega arith)))) in
    rw (loop, builder_update-eq u32_max (take n z) (omega arith) bs) refl
