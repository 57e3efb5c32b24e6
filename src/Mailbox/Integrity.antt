-- ===== src/Mailbox/Integrity.antt =====
-- Headers: what is built is valid, and what was changed on the way is not.
use atarix.Prelude.{
  ℕ, zero, suc, ◌/◌, ◌%◌, ◌^◌, ◌≤◌, ◌<◌, ◌≡◌, ◌≢◌, ◌↔◌, refl, sym, ◌∙◌, ap, true, Option, some,
  List, [], ◌∷◌, ◌++◌, arith, length, length-append, take_all, if◌then◌else◌, not, ◌==◌, bit_and,
  bit_xor,
}
use atarix.Prelude.Bits.{bit_xor_cancel}
use atarix.Prelude.Bits.Masks.{bit_and_mask}
use atarix.Crc.{bit_step, bit_steps, update, IsGenerator}
use atarix.Crc.Detect.{AreBytes, AreBytes-append, update-lt, byte_change_detected}
use atarix.Prelude.Int.{ℤ}
use atarix.Ring.{RingStatus, ring_can_access, operation_request}
use atarix.Ring.Access.{MayAccess, ring_can_access_iff}
use atarix.Mailbox.{
  ok, crc_mismatch, MailboxHeader, mailbox_magic, max_payload, crc32_bits, crc32_update,
  mailbox_crc32, message_type_known, build_header, validate_header, ring_verdict, ring_authorize,
}

abbrev generator : ℕ
generator = 0xEDB88320

-- The loop of mailbox.c is the reflected CRC of its generator.
crc32_bits-eq : (n crc : ℕ) → crc32_bits n crc ≡ bit_steps generator n crc
unfolding crc32_bits bit_steps bit_step
crc32_bits-eq zero crc = refl
crc32_bits-eq (suc n) crc = ap (crc32_bits n) one_bit ∙ crc32_bits-eq n (bit_step generator crc)
  where
    one_bit :
        (if not (bit_and crc 1 == 0) then bit_xor (crc / 2) generator else crc / 2)
        ≡ (if crc % 2 == 0 then crc / 2 else bit_xor (crc / 2) generator)
    one_bit = ground (arith, bit_and_mask 1 crc)

crc32_update-eq : (crc : ℕ) (bytes : List ℕ) → crc32_update crc bytes ≡ update generator crc bytes
unfolding crc32_update update
crc32_update-eq crc [] = refl
crc32_update-eq crc (b ∷ bytes) =
    ap (λ c. crc32_update c bytes) (crc32_bits-eq 8 (bit_xor crc b))
    ∙ crc32_update-eq (bit_steps generator 8 (bit_xor crc b)) bytes

-- A built header is valid for the payload that it was built for.
pub validate-build :
    (old built : MailboxHeader) (type sequence : ℕ) (payload : Option (List ℕ)) (n : ℕ)
    → build_header (some old) type sequence payload n ≡ (ok, some built)
    → validate_header (some built) payload n ≡ ok
unfolding build_header validate_header
validate-build old built type sequence payload n h = ground arith

record Built (built : MailboxHeader) (payload : Option (List ℕ)) (n : ℕ) : Type 0 where
  magic : built.magic ≡ mailbox_magic
  known : message_type_known built.type ≡ true
  length : built.length ≡ n
  short : n ≤ max_payload
  crc32 : built.crc32 ≡ mailbox_crc32 payload n

build-Built :
    (old built : MailboxHeader) (type sequence : ℕ) (payload : Option (List ℕ)) (n : ℕ)
    → build_header (some old) type sequence payload n ≡ (ok, some built)
    → Built built payload n
unfolding build_header
build-Built old built type sequence payload n h = ground arith

generator-IsGenerator : IsGenerator generator
generator-IsGenerator = omega arith

-- The CRC of a whole payload, by the common register.
crc_of :
    (bytes : List ℕ)
    → mailbox_crc32 (some bytes) (length bytes)
      ≡ bit_xor (update generator 0xFFFFFFFF bytes) 0xFFFFFFFF
unfolding mailbox_crc32
crc_of bytes = rw (take_all bytes, crc32_update-eq 0xFFFFFFFF bytes)

crc_change :
    (before : List ℕ) (x y : ℕ) (after : List ℕ)
    → AreBytes before
    → x < 256
    → y < 256
    → AreBytes after
    → x ≢ y
    → mailbox_crc32 (some (before ++ x ∷ after)) (length (before ++ x ∷ after))
      ≢ mailbox_crc32 (some (before ++ y ∷ after)) (length (before ++ y ∷ after))
crc_change before x y after bs p q rs ne e =
    let start-lt : 0xFFFFFFFF < 2 ^ 32 = omega arith in
    let left =
      update-lt generator generator-IsGenerator 0xFFFFFFFF (before ++ x ∷ after) start-lt
        (AreBytes-append before x after bs p rs) in
    let right =
      update-lt generator generator-IsGenerator 0xFFFFFFFF (before ++ y ∷ after) start-lt
        (AreBytes-append before y after bs q rs) in
    ne (
      byte_change_detected generator generator-IsGenerator 0xFFFFFFFF before x y after start-lt bs p
        q rs
        (bit_xor_cancel 32 (update generator 0xFFFFFFFF (before ++ x ∷ after))
          (update generator 0xFFFFFFFF (before ++ y ∷ after)) 0xFFFFFFFF left right start-lt
          (sym (crc_of (before ++ x ∷ after)) ∙ e ∙ crc_of (before ++ y ∷ after))))

-- One byte of a payload changed on the way: the header that was built is refused for its CRC.
pub validate_detects_byte :
    (old built : MailboxHeader) (type sequence : ℕ) (before : List ℕ) (x y : ℕ) (after : List ℕ)
    → AreBytes before
    → x < 256
    → y < 256
    → AreBytes after
    → x ≢ y
    → build_header
        (some old)
        type
        sequence
        (some (before ++ x ∷ after))
        (length (before ++ x ∷ after))
      ≡ (ok, some built)
    → validate_header (some built) (some (before ++ y ∷ after)) (length (before ++ y ∷ after))
      ≡ crc_mismatch
unfolding validate_header
validate_detects_byte old built type sequence before x y after bs p q rs ne h = ground (
  arith,
  build-Built old built type sequence (some (before ++ x ∷ after)) (length (before ++ x ∷ after)) h,
  crc_change before x y after bs p q rs ne,
  length-append before (x ∷ after),
  length-append before (y ∷ after),
)

ring_verdict_iff : (s : RingStatus) → (ring_verdict s ≡ ok) ↔ (s ≡ RingStatus.allow)
unfolding ring_verdict
ring_verdict_iff s = ground arith

-- A message passes the ring check exactly when its type is known and the source ring may send
-- requests to the target ring.
ring_authorize_iff :
    (source target : ℤ) (type : ℕ)
    → (ring_authorize source target type ≡ ok)
      ↔ ((message_type_known type ≡ true) × MayAccess source target operation_request)
unfolding ring_authorize
ring_authorize_iff source target type = ground (
  arith,
  ring_can_access_iff source target operation_request,
  ring_verdict_iff (ring_can_access source target operation_request),
)
