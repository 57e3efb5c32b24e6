-- ===== src/Discovery/Validate.antt =====
-- src/discovery/discovery_validate.c: validation of an image of bytes. The packed structures are read
-- as little-endian words at their offsets, and a read outside of the image is a fault.
pub mod Safety
pub mod Records
use atarix.Prelude.{
  ℕ, zero, suc, ◌+◌, ◌-◌, ◌/◌, ◌%◌, ◌^◌, Bool, true, false, not, ◌&&◌, ◌||◌, Option, none, some,
  List, [], ◌∷◌, bit_and, bit_xor, take, length, ltb, leb, ◌==◌, if◌then◌else◌,
}
use atarix.Prelude.Outcome.{Outcome, fault, fail, value, ◌>>=◌, read_le16, read_le32}
use atarix.Prelude.Word.{u32, not32}
use atarix.Bib.Bytes.{write_bytes}
use atarix.Discovery.Format.{
  DiscoveryResult, error_null, too_small, bad_magic, unsupported_version, bad_length, bad_alignment,
  truncated_record, missing_end, bad_crc, header_size, record_header_size, record_end,
  version_major_v1, magic_is_valid, aligned8,
}

-- A returned error is `fail`, and ATARIX_DISCOVERY_OK a value.
abbrev pub Checked : Type 0 → Type 0
Checked A = Outcome DiscoveryResult A

-- The mask is all ones where the lowest bit is set, and zero elsewhere.
unfoldable pub crc32_bits : ℕ → ℕ → ℕ
crc32_bits zero crc = crc
crc32_bits (suc left) crc =
    let mask = u32 (2 ^ 32 - bit_and crc 1) in
    crc32_bits left (bit_xor (crc / 2) (bit_and 0xEDB88320 mask))

unfoldable pub crc32_update : ℕ → List ℕ → ℕ
crc32_update crc [] = crc
crc32_update crc (byte ∷ bytes) = crc32_update (crc32_bits 8 (bit_xor crc byte)) bytes

unfoldable pub crc32_iso_hdlc : List ℕ → ℕ
crc32_iso_hdlc bytes = not32 (crc32_update 0xFFFFFFFF bytes)

-- The first `n` bytes of an object, as `memcpy` and the CRC's loop read them.
unfoldable pub first_bytes : List ℕ → ℕ → Checked (List ℕ)
first_bytes bytes n = if ltb (length bytes) n then fault else value (take n bytes)

abbrev pub zero_word : List ℕ
zero_word = 0 ∷ 0 ∷ 0 ∷ 0 ∷ []

-- The largest image whose own CRC is looked at.
abbrev pub image_copy_size : ℕ
image_copy_size = 512

-- After the header's CRC was found right.
unfoldable pub image_crc_valid : List ℕ → ℕ → ℕ → ℕ → Checked Bool
image_crc_valid image image_size total expected =
    if ltb image_copy_size image_size then value true else do
      image_copy ← first_bytes image image_size
      bytes ← first_bytes (write_bytes image_copy 28 zero_word) total
      value (crc32_iso_hdlc bytes == expected)

unfoldable pub crc_valid : List ℕ → ℕ → Checked Bool
crc_valid image image_size = do
  expected_header_crc ← read_le32 image 24
  expected_image_crc ← read_le32 image 28
  header_copy ← first_bytes image header_size
  if not (
        crc32_iso_hdlc (write_bytes (write_bytes header_copy 24 zero_word) 28 zero_word)
        == expected_header_crc)
      then value false
      else do total ← read_le32 image 8; image_crc_valid image image_size total expected_image_crc

-- The loop over the records, with the number that it saw. It runs on fuel, and to run out of it is a
-- fault, which the theorem on faults excludes too.
unfoldable pub walk : ℕ → List ℕ → ℕ → ℕ → ℕ → Checked ℕ
walk zero image total offset records_seen = fault
walk (suc fuel) image total offset records_seen =
    if not (ltb offset total)
    then fail missing_end
    else if not (aligned8 offset)
    then fail bad_alignment
    else if ltb (total - offset) record_header_size
    then fail truncated_record
    else do
      record_length ← read_le32 image (offset + 4)
      if ltb record_length record_header_size || not (aligned8 record_length)
          then fail bad_length
          else if ltb (total - offset) record_length
          then fail truncated_record
          else do
            type ← read_le16 image offset
            if type == record_end
                then value (u32 (records_seen + 1))
                else walk fuel image total (offset + record_length) (u32 (records_seen + 1))

-- From the walk on.
unfoldable pub validate_records : List ℕ → ℕ → Checked (Unit {0})
validate_records image total = do
  records_seen ← walk total image total header_size 0
  record_count ← read_le32 image 12
  if not (record_count == 0) && not (records_seen == record_count)
      then fail bad_length
      else value tt

-- From the magic on.
unfoldable pub validate_header : List ℕ → ℕ → Checked (Unit {0})
validate_header image image_size = do
  magic ← read_le32 image 0
  if not (magic_is_valid magic) then fail bad_magic else do
    major ← read_le16 image 4
    if not (major == version_major_v1) then fail unsupported_version else do
      total ← read_le32 image 8
      if ltb total header_size || ltb image_size total || not (aligned8 total)
          then fail bad_length
          else do
            valid ← crc_valid image image_size
            if not valid then fail bad_crc else validate_records image total

unfoldable pub validate : Option (List ℕ) → ℕ → Checked (Unit {0})
unfolding validate_header
validate none image_size = fail error_null
validate (some image) image_size =
    if ltb image_size header_size then fail too_small else validate_header image image_size
