-- ===== src/Bib/Builder.antt =====
-- include/atarix/bib_builder.h and src/bib/bib_builder.c. The builder's buffer is the caller's memory,
-- a list of bytes; a pointer that may be NULL is an Option.
pub mod Writes
pub mod Laws
pub mod Image
pub mod Records
use atarix.Prelude.{
  ℕ, zero, suc, ◌+◌, ◌-◌, ◌/◌, ◌^◌, Bool, true, false, not, ◌||◌, Option, none, some, List, [], ◌∷◌,
  length, take, replicate, bit_and, bit_xor, ltb, ◌==◌, if◌then◌else◌,
}
use atarix.Prelude.Word.{u32, not32}
use atarix.Bib.Format.{
  version_major_v1, version_minor_v0, header_size, tlv_header_size, reference_fixed_size, magic,
  header_flags_are_known, tlv_flags_are_known,
}
use atarix.Bib.Bytes.{write_bytes, write_le16, write_le32, write_le64}

pub data BuilderResult : Type 0 where
  ok e_argument e_capacity e_state e_flags e_length : BuilderResult

pub record BibBuilder : Type 0 where
  pub buffer : Option (List ℕ)
  pub capacity : ℕ
  pub length : ℕ
  pub tlv_count : ℕ
  pub sealed : Bool

abbrev pub u32_max : ℕ
u32_max = 2 ^ 32 - 1

unfoldable pub crc32c_bits : ℕ → ℕ → ℕ
crc32c_bits zero crc = crc
crc32c_bits (suc left) crc =
    crc32c_bits left (bit_xor (crc / 2) (if not (bit_and crc 1 == 0) then 0x82F63B78 else 0))

unfoldable pub crc32c_update : ℕ → List ℕ → ℕ
crc32c_update crc [] = crc
crc32c_update crc (byte ∷ bytes) = crc32c_update (crc32c_bits 8 (bit_xor crc byte)) bytes

unfoldable pub crc32c : List ℕ → ℕ → ℕ
crc32c bytes n = bit_xor (crc32c_update u32_max (take n bytes)) u32_max

-- `none` stands for the returned 0.
unfoldable pub align8_u32 : ℕ → Option ℕ
align8_u32 value =
    if ltb (u32_max - 7) value then none else some (bit_and (u32 (value + 7)) (not32 7))

-- The header after `memset` of the whole buffer.
unfoldable pub write_header : List ℕ → ℕ → ℕ → ℕ → ℕ → ℕ → List ℕ
write_header p capacity header_flags boot_id producer_id created_counter =
    let p = write_bytes p 0 (replicate capacity 0) in
    let p = write_bytes p 0 magic in
    let p = write_le16 p 8 version_major_v1 in
    let p = write_le16 p 10 version_minor_v0 in
    let p = write_le16 p 12 header_size in
    let p = write_le16 p 14 header_flags in
    let p = write_le64 p 24 boot_id in
    let p = write_le64 p 32 producer_id in
    let p = write_le64 p 40 created_counter in write_le32 p 48 header_size

-- The result, and the builder object after the call.
unfoldable pub builder_init :
    Option BibBuilder → Option (List ℕ) → ℕ → ℕ → ℕ → ℕ → ℕ → BuilderResult × Option BibBuilder
builder_init none buffer capacity header_flags boot_id producer_id created_counter =
    (e_argument, none)
builder_init (some old) none capacity header_flags boot_id producer_id created_counter =
    (e_argument, some old)
builder_init (some old) (some p) capacity header_flags boot_id producer_id created_counter =
    if ltb capacity header_size || ltb u32_max capacity
    then (e_argument, some old)
    else if not (header_flags_are_known header_flags)
    then (e_flags, some old)
    else (
      ok,
      some (record {
        buffer = some (write_header p capacity header_flags boot_id producer_id created_counter);
        capacity = capacity;
        length = header_size;
        tlv_count = 0;
        sealed = false;
      }),
    )

-- The record at `at`, of `record_length` bytes.
unfoldable pub write_record : List ℕ → ℕ → ℕ → ℕ → ℕ → List ℕ → ℕ → List ℕ
write_record p at record_length type flags payload payload_length =
    let p = write_bytes p at (replicate record_length 0) in
    let p = write_le16 p (at + 0) type in
    let p = write_le16 p (at + 2) flags in
    let p = write_le32 p (at + 4) record_length in
    let p = write_le32 p (at + 8) payload_length in
    if not (payload_length == 0)
    then write_bytes p (at + tlv_header_size) (take payload_length payload)
    else p

-- `payload_length != 0u && payload == NULL`
abbrev pub missing_payload : Option (List ℕ) → ℕ → Bool
missing_payload none payload_length = not (payload_length == 0)
missing_payload (some payload) payload_length = false

abbrev pub payload_bytes : Option (List ℕ) → List ℕ
payload_bytes none = []
payload_bytes (some payload) = payload

-- After the alignment of the record's length.
unfoldable pub append_record :
    BibBuilder → List ℕ → ℕ → ℕ → List ℕ → ℕ → Option ℕ → BuilderResult × BibBuilder
append_record builder p type flags payload payload_length none = (e_length, builder)
append_record builder p type flags payload payload_length (some record_length) =
    if ltb builder.capacity builder.length || ltb (builder.capacity - builder.length) record_length
    then (e_capacity, builder)
    else (
      ok,
      record builder {
        buffer =
            some (write_record p builder.length record_length type flags payload payload_length);
        length = u32 (builder.length + record_length);
        tlv_count = u32 (builder.tlv_count + 1);
      },
    )

abbrev add_tlv_to :
    BibBuilder → Option (List ℕ) → ℕ → ℕ → Option (List ℕ) → ℕ → BuilderResult × BibBuilder
add_tlv_to builder none type flags payload payload_length = (e_argument, builder)
add_tlv_to builder (some p) type flags payload payload_length =
    if missing_payload payload payload_length
    then (e_argument, builder)
    else if builder.sealed
    then (e_state, builder)
    else if not (tlv_flags_are_known flags)
    then (e_flags, builder)
    else if ltb (u32_max - tlv_header_size) payload_length
    then (e_length, builder)
    else append_record builder p type flags (payload_bytes payload) payload_length
        (align8_u32 (u32 (tlv_header_size + payload_length)))

-- For a builder that is not NULL.
unfoldable pub add_tlv : BibBuilder → ℕ → ℕ → Option (List ℕ) → ℕ → BuilderResult × BibBuilder
add_tlv builder type flags payload payload_length =
    add_tlv_to builder builder.buffer type flags payload payload_length

abbrev pub kept : BuilderResult × BibBuilder → BuilderResult × Option BibBuilder
kept (result, builder) = (result, some builder)

-- The result, and the builder object after the call.
unfoldable pub builder_add_tlv :
    Option BibBuilder → ℕ → ℕ → Option (List ℕ) → ℕ → BuilderResult × Option BibBuilder
unfolding add_tlv
builder_add_tlv none type flags payload payload_length = (e_argument, none)
builder_add_tlv (some builder) type flags payload payload_length =
    kept (add_tlv builder type flags payload payload_length)

unfoldable pub reference_payload : ℕ → ℕ → ℕ → ℕ → ℕ → List ℕ
reference_payload object_id address length format_major format_minor =
    let payload = replicate reference_fixed_size 0 in
    let payload = write_le64 payload 0 object_id in
    let payload = write_le64 payload 8 address in
    let payload = write_le64 payload 16 length in
    let payload = write_le32 payload 24 format_major in write_le32 payload 28 format_minor

unfoldable pub builder_add_reference :
    Option BibBuilder → ℕ → ℕ → ℕ → ℕ → ℕ → ℕ → ℕ → BuilderResult × Option BibBuilder
builder_add_reference builder type flags object_id address length format_major format_minor =
    builder_add_tlv builder type flags
      (some (reference_payload object_id address length format_major format_minor))
      reference_fixed_size

-- The buffer that is sealed: lengths, count and CRC are written.
unfoldable pub seal_buffer : List ℕ → ℕ → ℕ → List ℕ
seal_buffer p length tlv_count =
    let p = write_le32 p 16 length in
    let p = write_le32 p 20 0 in
    let p = write_le32 p 52 tlv_count in write_le32 p 20 (crc32c p length)

abbrev seal_with : BibBuilder → Option (List ℕ) → BuilderResult × BibBuilder × Option ℕ
seal_with builder none = (e_argument, builder, none)
seal_with builder (some p) = if builder.sealed then (e_state, builder, none) else (
  ok,
  record builder { buffer = some (seal_buffer p builder.length builder.tlv_count); sealed = true },
  some builder.length,
)

-- The result, the builder object after the call, and what is stored through `serialized_length`.
unfoldable pub builder_seal : Option BibBuilder → BuilderResult × Option BibBuilder × Option ℕ
builder_seal none = (e_argument, none, none)
builder_seal (some builder) =
    let (result, after, length) = seal_with builder builder.buffer in (result, some after, length)
