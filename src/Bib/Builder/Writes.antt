-- ===== src/Bib/Builder/Writes.antt =====
-- Writes leave the length of the buffer as it is.
use native.Mathlib.Decide.{ℕ_discrete}
use atarix.Prelude.{
  ℕ, suc, ◌+◌, ◌/◌, ◌%◌, ◌^◌, ◌≡◌, refl, ◌∙◌, false, List, [], ◌∷◌, set, length, length-set, ◌==◌,
  arith,
}
use atarix.Bib.Bytes.{write_bytes, le16, le32, write_le16, write_le32, write_le64}
use atarix.Bib.Builder.{write_header, write_record, seal_buffer}

pub length-write_bytes :
    (buffer : List ℕ) (p : ℕ) (bytes : List ℕ) → length (write_bytes buffer p bytes) ≡ length buffer
unfolding write_bytes
length-write_bytes buffer p [] = refl
length-write_bytes buffer p (b ∷ bytes) =
    length-write_bytes (set buffer p b) (suc p) bytes ∙ length-set buffer p b

length-write_le16 : (buffer : List ℕ) (p v : ℕ) → length (write_le16 buffer p v) ≡ length buffer
unfolding write_le16
length-write_le16 buffer p v = length-write_bytes buffer p (le16 v)

length-write_le32 : (buffer : List ℕ) (p v : ℕ) → length (write_le32 buffer p v) ≡ length buffer
unfolding write_le32
length-write_le32 buffer p v = length-write_bytes buffer p (le32 v)

length-write_le64 : (buffer : List ℕ) (p v : ℕ) → length (write_le64 buffer p v) ≡ length buffer
unfolding write_le64
length-write_le64 buffer p v =
    length-write_le32 (write_le32 buffer p (v % 2 ^ 32)) (p + 4) (v / 2 ^ 32 % 2 ^ 32)
    ∙ length-write_le32 buffer p (v % 2 ^ 32)

ruleset lengths = (length-write_bytes, length-write_le16, length-write_le32, length-write_le64)

pub length-write_header :
    (p : List ℕ) (capacity flags boot producer counter : ℕ)
    → length (write_header p capacity flags boot producer counter) ≡ length p
unfolding write_header
length-write_header p capacity flags boot producer counter = simp lengths

pub length-write_record :
    (p : List ℕ) (at record_length type flags : ℕ) (payload : List ℕ) (payload_length : ℕ)
    → length (write_record p at record_length type flags payload payload_length) ≡ length p
unfolding write_record
length-write_record p at record_length type flags payload payload_length =
    elim (ℕ_discrete payload_length 0) [
      | yes e ↦ rw e (simp lengths)
      | no ne ↦
          let some_payload : (payload_length == 0) ≡ false = ground arith in
          rw some_payload (simp lengths)
    ]

pub length-seal_buffer : (p : List ℕ) (n count : ℕ) → length (seal_buffer p n count) ≡ length p
unfolding seal_buffer
length-seal_buffer p n count = simp lengths
