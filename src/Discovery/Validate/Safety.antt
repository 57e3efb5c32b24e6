-- ===== src/Discovery/Validate/Safety.antt =====
-- The reads of the validation stay inside the image.
use atarix.Prelude.{
  ℕ, zero, suc, ◌+◌, ◌-◌, ◌%◌, ◌≤◌, ◌<◌, ◌≡◌, ◌↔◌, refl, true, not, ◌&&◌, ◌||◌, some, List, length,
  length-take, take, ltb, ◌==◌, arith,
}
use atarix.Prelude.Bits.Masks.{bit_and_mask}
use atarix.Prelude.Word.{u32}
use atarix.Prelude.Outcome.{
  value, read_le32, read_le16-value, read_le32-value, IsSafe, IsSafe-value, IsSafe-bind,
  IsSafe-guard, IsSafe-read, IsSafe-if,
}
use atarix.Bib.Bytes.{write_bytes}
use atarix.Bib.Builder.Writes.{length-write_bytes}
use atarix.Discovery.Format.{
  DiscoveryResult, header_size, record_header_size, record_end, version_major_v1, magic_is_valid,
  aligned8,
}
use atarix.Discovery.Validate.{
  crc32_iso_hdlc, first_bytes, zero_word, image_copy_size, image_crc_valid, crc_valid, walk,
  validate_records, validate_header, validate,
}

pub aligned8_iff : (n : ℕ) → (aligned8 n ≡ true) ↔ (n % 8 ≡ 0)
unfolding aligned8
aligned8_iff n = ground (arith, bit_and_mask 3 n)

first_bytes_value :
    (bytes : List ℕ) (n : ℕ) → n ≤ length bytes → first_bytes bytes n ≡ value (take n bytes)
unfolding first_bytes
first_bytes_value bytes n h = ground arith

module _ (image : List ℕ) (image_size : ℕ) (fits : image_size ≤ length image) where
  image_crc_valid-IsSafe :
      (total expected : ℕ)
      → total ≤ image_size
      → IsSafe (image_crc_valid image image_size total expected)
  unfolding image_crc_valid
  image_crc_valid-IsSafe total expected h =
      let copy = take image_size image in
      let enough : total ≤ length (write_bytes copy 28 zero_word) =
        omega (arith, length-write_bytes copy 28 zero_word, length-take image_size image) in
      IsSafe-if (ltb image_copy_size image_size) _ _ (λ _. IsSafe-value (_, refl))
        λ _.
          rw
            (
              first_bytes_value image image_size fits,
              first_bytes_value (write_bytes copy 28 zero_word) total enough,
            )
            (IsSafe-value (_, refl))

  crc_valid-IsSafe :
      (total : ℕ)
      → header_size ≤ image_size
      → read_le32 {E = DiscoveryResult} image 8 ≡ value total
      → total ≤ image_size
      → IsSafe (crc_valid image image_size)
  unfolding crc_valid
  crc_valid-IsSafe total h reads within =
      IsSafe-read (read_le32-value image 24 (omega arith)) λ expected_header_crc.
        IsSafe-read (read_le32-value image 28 (omega arith)) λ expected_image_crc.
          IsSafe-bind (first_bytes image header_size) _
            (IsSafe-value (_, first_bytes_value image header_size (omega arith)))
            λ header_copy _.
              IsSafe-if
                (not (
                  crc32_iso_hdlc (write_bytes (write_bytes header_copy 24 zero_word) 28 zero_word)
                  == expected_header_crc))
                _ _ (λ _. IsSafe-value (_, refl))
                λ _. rw reads (image_crc_valid-IsSafe total expected_image_crc within)

module _ (image : List ℕ) (total : ℕ) (fits : total ≤ length image) where
  pub walk-IsSafe :
      (fuel offset records_seen : ℕ)
      → total < offset + fuel
      → offset ≤ total
      → IsSafe (walk fuel image total offset records_seen)
  unfolding walk
  walk-IsSafe zero offset seen room within = absurd (omega arith)
  walk-IsSafe (suc fuel) offset seen room within = IsSafe-guard (not (ltb offset total)) _ _ λ _.
      IsSafe-guard (not (aligned8 offset)) _ _ λ _.
        IsSafe-guard (ltb (total - offset) record_header_size) _ _ λ header.
          let header_fits : offset + record_header_size ≤ total = ground arith in
          IsSafe-read (read_le32-value image (offset + 4) (omega arith)) λ record_length.
            IsSafe-guard (ltb record_length record_header_size || not (aligned8 record_length)) _ _
              λ long. IsSafe-guard (ltb (total - offset) record_length) _ _ λ short.
                let enough : record_header_size ≤ record_length = ground arith in
                let inside : offset + record_length ≤ total = ground arith in
                IsSafe-read (read_le16-value image offset (omega arith)) λ type.
                  IsSafe-if (type == record_end) _ _ (λ _. IsSafe-value (_, refl))
                    λ _.
                      walk-IsSafe fuel (offset + record_length) (u32 (seen + 1)) (omega arith)
                        inside

module _ (image : List ℕ) (image_size : ℕ) (fits : image_size ≤ length image) where
  validate_records-IsSafe :
      (total : ℕ) → header_size ≤ total → total ≤ image_size → IsSafe (validate_records image total)
  unfolding validate_records
  validate_records-IsSafe total h within =
      IsSafe-bind (walk total image total header_size 0) _
        (walk-IsSafe image total (omega arith) total header_size 0 (omega arith) h)
        λ seen _. IsSafe-read (read_le32-value image 12 (omega arith)) λ record_count.
          IsSafe-guard (not (record_count == 0) && not (seen == record_count)) _ _
            λ _. IsSafe-value (_, refl)

  validate_header-IsSafe : header_size ≤ image_size → IsSafe (validate_header image image_size)
  unfolding validate_header
  validate_header-IsSafe h = IsSafe-read (read_le32-value image 0 (omega arith)) λ magic.
      IsSafe-guard (not (magic_is_valid magic)) _ _ λ _.
        IsSafe-read (read_le16-value image 4 (omega arith)) λ major.
          IsSafe-guard (not (major == version_major_v1)) _ _ λ _.
            IsSafe-bind (read_le32 image 8) _ (IsSafe-value (read_le32-value image 8 (omega arith)))
              λ total reads.
                IsSafe-guard (ltb total header_size || ltb image_size total || not (aligned8 total))
                  _ _
                  λ test.
                    let large : header_size ≤ total = ground arith in
                    let within : total ≤ image_size = ground arith in
                    IsSafe-bind (crc_valid image image_size) _
                      (crc_valid-IsSafe image image_size fits total h reads within)
                      λ valid _.
                        IsSafe-guard (not valid) _ _ λ _. validate_records-IsSafe total large within

-- The validation of whatever bytes ends, and never reads outside of the image, when the image has at
-- least as many bytes as the caller says.
pub validate-IsSafe :
    (image : List ℕ) (image_size : ℕ)
    → image_size ≤ length image
    → IsSafe (validate (some image) image_size)
unfolding validate
validate-IsSafe image image_size fits =
    IsSafe-guard (ltb image_size header_size) _ _
      λ test. validate_header-IsSafe image image_size fits (ground arith)
