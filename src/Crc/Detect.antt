-- ===== src/Crc/Detect.antt =====
-- The register keeps 32 bits, each step of it is one to one, and so two messages that differ in one
-- byte leave different registers.
use atarix.Prelude.{ℕ, zero, suc, ◌/◌, ◌^◌, ◌<◌, ◌≡◌, ◌∙◌, List, [], ◌∷◌, ◌++◌, arith, bit_xor}
use atarix.Prelude.Bits.{bit_xor-lt, bit_xor_cancel, bit_xor_comm, bit_xor_high}
use atarix.Crc.{IsGenerator, bit_step, bit_steps, update}

abbrev pub AreBytes : List ℕ → Type 0
AreBytes [] = Unit
AreBytes (b ∷ bs) = (b < 256) × AreBytes bs

pub AreBytes-append :
    (before : List ℕ) (x : ℕ) (after : List ℕ)
    → AreBytes before
    → x < 256
    → AreBytes after
    → AreBytes (before ++ x ∷ after)
AreBytes-append [] x after bs p rs = (p, rs)
AreBytes-append (b ∷ before) x after bs p rs = (bs.0, AreBytes-append before x after bs.1 p rs)

module _ (poly : ℕ) (g : IsGenerator poly) where
  pub bit_step-lt : (crc : ℕ) → crc < 2 ^ 32 → bit_step poly crc < 2 ^ 32
  unfolding bit_step
  bit_step-lt crc h = ground (arith, bit_xor-lt 32 (crc / 2) poly)

  bit_step_injective :
      (a b : ℕ) → a < 2 ^ 32 → b < 2 ^ 32 → bit_step poly a ≡ bit_step poly b → a ≡ b
  unfolding bit_step
  bit_step_injective a b p q e = ground (
    arith,
    bit_xor_high 31 (a / 2) poly,
    bit_xor_high 31 (b / 2) poly,
    bit_xor_cancel 32 (a / 2) (b / 2) poly,
  )

  pub bit_steps-lt : (n crc : ℕ) → crc < 2 ^ 32 → bit_steps poly n crc < 2 ^ 32
  unfolding bit_steps
  bit_steps-lt zero crc h = h
  bit_steps-lt (suc n) crc h = bit_steps-lt n (bit_step poly crc) (bit_step-lt crc h)

  bit_steps_injective :
      (n a b : ℕ) → a < 2 ^ 32 → b < 2 ^ 32 → bit_steps poly n a ≡ bit_steps poly n b → a ≡ b
  unfolding bit_steps
  bit_steps_injective zero a b p q e = e
  bit_steps_injective (suc n) a b p q e = bit_step_injective a b p q (
      bit_steps_injective n (bit_step poly a) (bit_step poly b) (bit_step-lt a p) (bit_step-lt b q)
        e)

  pub update-lt :
      (crc : ℕ) (bytes : List ℕ) → crc < 2 ^ 32 → AreBytes bytes → update poly crc bytes < 2 ^ 32
  unfolding update
  update-lt crc [] h bs = h
  update-lt crc (b ∷ bytes) h bs =
      update-lt (bit_steps poly 8 (bit_xor crc b)) bytes
        (bit_steps-lt 8 (bit_xor crc b) (bit_xor-lt 32 crc b h (omega arith))) bs.1

  -- For a fixed message the register can be run backwards.
  update_injective :
      (a b : ℕ) (bytes : List ℕ)
      → a < 2 ^ 32
      → b < 2 ^ 32
      → AreBytes bytes
      → update poly a bytes ≡ update poly b bytes
      → a ≡ b
  unfolding update
  update_injective a b [] p q bs e = e
  update_injective a b (x ∷ bytes) p q bs e =
      let x-lt : x < 2 ^ 32 = omega arith in
      let a-lt = bit_xor-lt 32 a x p x-lt in
      let b-lt = bit_xor-lt 32 b x q x-lt in
      bit_xor_cancel 32 a b x p q x-lt (
        bit_steps_injective 8 (bit_xor a x) (bit_xor b x) a-lt b-lt (
          update_injective (bit_steps poly 8 (bit_xor a x)) (bit_steps poly 8 (bit_xor b x)) bytes
            (bit_steps-lt 8 (bit_xor a x) a-lt) (bit_steps-lt 8 (bit_xor b x) b-lt) bs.1 e))

  first_byte_detected :
      (crc x y : ℕ) (bytes : List ℕ)
      → crc < 2 ^ 32
      → x < 256
      → y < 256
      → AreBytes bytes
      → update poly crc (x ∷ bytes) ≡ update poly crc (y ∷ bytes)
      → x ≡ y
  unfolding update
  first_byte_detected crc x y bytes h p q bs e =
      let x-lt : x < 2 ^ 32 = omega arith in
      let y-lt : y < 2 ^ 32 = omega arith in
      let cx = bit_xor-lt 32 crc x h x-lt in
      let cy = bit_xor-lt 32 crc y h y-lt in
      bit_xor_cancel 32 x y crc x-lt y-lt h (
        bit_xor_comm 32 x crc x-lt h
        ∙ bit_steps_injective 8 (bit_xor crc x) (bit_xor crc y) cx cy (
            update_injective (bit_steps poly 8 (bit_xor crc x)) (bit_steps poly 8 (bit_xor crc y))
              bytes (bit_steps-lt 8 (bit_xor crc x) cx) (bit_steps-lt 8 (bit_xor crc y) cy) bs e)
        ∙ bit_xor_comm 32 crc y h y-lt)

  -- Two messages that differ in one byte leave different registers.
  pub byte_change_detected :
      (crc : ℕ) (before : List ℕ) (x y : ℕ) (after : List ℕ)
      → crc < 2 ^ 32
      → AreBytes before
      → x < 256
      → y < 256
      → AreBytes after
      → update poly crc (before ++ x ∷ after) ≡ update poly crc (before ++ y ∷ after)
      → x ≡ y
  unfolding update
  byte_change_detected crc [] x y after h bs p q rs e = first_byte_detected crc x y after h p q rs e
  byte_change_detected crc (b ∷ before) x y after h bs p q rs e =
      byte_change_detected (bit_steps poly 8 (bit_xor crc b)) before x y after
        (bit_steps-lt 8 (bit_xor crc b) (bit_xor-lt 32 crc b h (omega arith))) bs.1 p q rs e
