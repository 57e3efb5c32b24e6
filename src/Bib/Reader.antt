-- ===== src/Bib/Reader.antt =====
-- include/atarix/bib_reader.h and src/bib/bib_reader.c. Every read goes through the buffer's bytes, and
-- one outside of them is a fault. A pointer into the buffer is its offset.
pub mod Safety
pub mod Errors
pub mod Opened
pub mod Records
pub mod Loops
pub mod Queries
use atarix.Prelude.{
  ℕ, zero, suc, ◌+◌, ◌-◌, ◌/◌, ◌^◌, Bool, true, false, not, ◌&&◌, ◌||◌, Option, none, some, List,
  [], ◌∷◌, bit_and, bit_xor, ltb, leb, ◌==◌, if◌then◌else◌,
}
use atarix.Prelude.Outcome.{
  Outcome, fault, fail, value, ◌>>=◌, byte_at, read_le16, read_le32, read_le64,
}
use atarix.Prelude.Word.{u32, has_flag}
use atarix.Bib.Format
use atarix.Bib.Format.{
  BibError, ok, window, bad_magic, version, header_length, total_length, bad_crc, header_reserved,
  tlv_bounds, tlv_reserved, unknown_mandatory, required_record, reference_overflow,
  reference_integrity, version_major_v1, header_size, tlv_header_size, reference_fixed_size,
  recommended_max_size, flag_mandatory, service_directory_reference, memory_map_reference,
  entropy_seed_reference, length_is_aligned, header_flags_are_known, tlv_flags_are_known,
}

abbrev pub Read : Type 0 → Type 0
Read A = Outcome BibError A

-- A view of a block; `memset` to zero leaves a NULL buffer.
pub record BibView : Type 0 where
  pub buffer : Option (List ℕ)
  pub total_length : ℕ
  pub tlv_offset : ℕ
  pub tlv_count : ℕ
  pub flags : ℕ
  pub boot_id : ℕ
  pub producer_id : ℕ
  pub created_counter : ℕ

abbrev pub zero_view : BibView
zero_view = record {
  buffer = none;
  total_length = 0;
  tlv_offset = 0;
  tlv_count = 0;
  flags = 0;
  boot_id = 0;
  producer_id = 0;
  created_counter = 0;
}

pub record RecordView : Type 0 where
  pub type : ℕ
  pub flags : ℕ
  pub payload : ℕ
  pub payload_length : ℕ
  pub serialized_length : ℕ

pub record ReferenceView : Type 0 where
  pub object_id : ℕ
  pub address : ℕ
  pub length : ℕ
  pub format_major : ℕ
  pub format_minor : ℕ
  pub integrity_kind : ℕ
  pub integrity : ℕ
  pub integrity_length : ℕ

unfoldable pub crc32c_bits : ℕ → ℕ → ℕ
crc32c_bits zero crc = crc
crc32c_bits (suc left) crc =
    crc32c_bits left (bit_xor (crc / 2) (if not (bit_and crc 1 == 0) then 0x82F63B78 else 0))

-- The byte of index `i`, with the CRC field read as zero.
abbrev pub byte_zeroed : List ℕ → ℕ → Read ℕ
byte_zeroed data_bytes i = if leb 20 i && ltb i 24 then value 0 else byte_at data_bytes i

-- The loop from index `i` on, for `left` rounds.
unfoldable pub crc32c_zeroed_from : List ℕ → ℕ → ℕ → ℕ → Read ℕ
crc32c_zeroed_from data_bytes zero i crc = value crc
crc32c_zeroed_from data_bytes (suc left) i crc = do
  byte ← byte_zeroed data_bytes i
  crc32c_zeroed_from data_bytes left (suc i) (crc32c_bits 8 (bit_xor crc byte))

unfoldable pub crc32c_with_zeroed_field : List ℕ → ℕ → Read ℕ
unfolding crc32c_zeroed_from
crc32c_with_zeroed_field data_bytes length = do
  crc ← crc32c_zeroed_from data_bytes length 0 0xFFFFFFFF
  value (bit_xor crc 0xFFFFFFFF)

unfoldable pub known_type : ℕ → Bool
known_type type = leb service_directory_reference type && leb type entropy_seed_reference

-- `magic[0] == 'A' && …`, which stops at the first byte that differs.
abbrev magic_from : List ℕ → ℕ → List ℕ → Read Bool
magic_from p i [] = value true
magic_from p i (m ∷ ms) = do
  b ← byte_at p i
  if b == m then magic_from p (suc i) ms else value false

unfoldable pub magic_is_valid : List ℕ → Read Bool
magic_is_valid p = magic_from p 0 Format.magic

unfoldable pub record_at_offset : List ℕ → ℕ → ℕ → Read RecordView
record_at_offset buffer total offset =
    if ltb total offset || ltb (total - offset) tlv_header_size then fail tlv_bounds else do
      length ← read_le32 buffer (offset + 4)
      payload_length ← read_le32 buffer (offset + 8)
      if ltb length tlv_header_size
            || not (length_is_aligned length)
            || ltb (total - offset) length
            || ltb (length - tlv_header_size) payload_length
          then fail tlv_bounds
          else do
            flags ← read_le16 buffer (offset + 2)
            reserved ← read_le32 buffer (offset + 12)
            if not (tlv_flags_are_known flags) || not (reserved == 0) then fail tlv_reserved else do
              type ← read_le16 buffer offset
              value (record {
                type = type;
                flags = flags;
                payload = offset + tlv_header_size;
                payload_length = payload_length;
                serialized_length = length;
              })

-- The two references that a block must have: long enough, and with no wrap of address and length.
unfoldable pub check_reference : List ℕ → RecordView → Read (Unit {0})
check_reference buffer r =
    if r.type == service_directory_reference || r.type == memory_map_reference
    then (if ltb r.payload_length reference_fixed_size then fail tlv_bounds else do
      address ← read_le64 buffer (r.payload + 8)
      length ← read_le64 buffer (r.payload + 16)
      if ltb (2 ^ 64 - 1 - length) address then fail reference_overflow else value tt)
    else value tt

-- The body of the loop of `atarix_bib_reader_open` for one record.
unfoldable pub check_record : List ℕ → RecordView → Read (Unit {0})
check_record buffer r =
    if not (known_type r.type) && has_flag r.flags flag_mandatory
    then fail unknown_mandatory
    else check_reference buffer r

abbrev pub counted : ℕ → ℕ → ℕ → ℕ
counted wanted type count = if type == wanted then u32 (count + 1) else count

-- The loop, with `left` records to go: the offset and the two counts behind the last record.
unfoldable pub scan : List ℕ → ℕ → ℕ → ℕ → ℕ → ℕ → Read (ℕ × ℕ × ℕ)
scan buffer total zero offset services memories = value (offset, services, memories)
scan buffer total (suc left) offset services memories = do
  r ← record_at_offset buffer total offset
  _ ← check_record buffer r
  scan buffer total left (u32 (offset + r.serialized_length))
      (counted service_directory_reference r.type services)
      (counted memory_map_reference r.type memories)

-- From the offset of the first record on.
unfoldable pub open_records : List ℕ → BibView → Read BibView
open_records buffer view =
    if ltb view.tlv_offset header_size
      || ltb view.total_length view.tlv_offset
      || not (length_is_aligned view.tlv_offset)
    then fail tlv_bounds
    else do
      (offset, services, memories) ←
          scan buffer view.total_length view.tlv_count view.tlv_offset 0 0
      if not (offset == view.total_length)
          then fail tlv_bounds
          else if not (services == 1) || not (memories == 1)
          then fail required_record
          else value view

-- The fields of a header whose length and CRC were found right.
unfoldable pub read_view : List ℕ → ℕ → Read BibView
read_view p total = do
  tlv_offset ← read_le32 p 48
  tlv_count ← read_le32 p 52
  flags ← read_le16 p 14
  boot_id ← read_le64 p 24
  producer_id ← read_le64 p 32
  created_counter ← read_le64 p 40
  value (record {
    buffer = some p;
    total_length = total;
    tlv_offset = tlv_offset;
    tlv_count = tlv_count;
    flags = flags;
    boot_id = boot_id;
    producer_id = producer_id;
    created_counter = created_counter;
  })

-- From the total length on.
unfoldable pub open_total : List ℕ → ℕ → ℕ → Read BibView
open_total p window_length total =
    if ltb total header_size
      || ltb window_length total
      || ltb recommended_max_size total
      || not (length_is_aligned total)
    then fail total_length
    else do
      expected ← read_le32 p 20
      actual ← crc32c_with_zeroed_field p total
      if not (expected == actual) then fail bad_crc else do
        flags ← read_le16 p 14
        reserved ← read_le64 p 56
        if not (header_flags_are_known flags) || not (reserved == 0)
            then fail header_reserved
            else do view ← read_view p total; open_records p view

unfoldable pub open_header : List ℕ → ℕ → Read BibView
open_header p window_length = do
  valid ← magic_is_valid p
  if not valid then fail bad_magic else do
    major ← read_le16 p 8
    if not (major == version_major_v1) then fail version else do
      size ← read_le16 p 12
      if not (size == header_size)
          then fail header_length
          else do total ← read_le32 p 16; open_total p window_length total

-- An error after the first test leaves the view zeroed.
abbrev pub view_written : Read BibView → Read (BibError × Option BibView)
view_written fault = fault
view_written (fail e) = value (e, some zero_view)
view_written (value view) = value (ok, some view)

-- The returned error, and the view object after the call.
unfoldable pub reader_open : Option BibView → Option (List ℕ) → ℕ → Read (BibError × Option BibView)
unfolding open_header
reader_open none buffer window_length = value (window, none)
reader_open (some old) none window_length = value (window, some old)
reader_open (some old) (some p) window_length =
    if ltb window_length header_size
    then value (window, some old)
    else view_written (open_header p window_length)

-- The loop over the records before the one that is asked for.
unfoldable pub skip_records : List ℕ → ℕ → ℕ → ℕ → Read ℕ
skip_records buffer total zero offset = value offset
skip_records buffer total (suc left) offset = do
  r ← record_at_offset buffer total offset
  skip_records buffer total left (u32 (offset + r.serialized_length))

-- A returned error is `fail`; the record object is written only with ATARIX_BIB_OK.
abbrev record_in : BibView → Option (List ℕ) → ℕ → Read RecordView
record_in view none index = fail tlv_bounds
record_in view (some buffer) index = if leb view.tlv_count index then fail tlv_bounds else do
  offset ← skip_records buffer view.total_length index view.tlv_offset
  record_at_offset buffer view.total_length offset

-- `present` says whether the pointer to the result is not NULL.
unfoldable pub reader_record : Option BibView → ℕ → Bool → Read RecordView
unfolding skip_records
reader_record none index present = fail tlv_bounds
reader_record (some view) index false = fail tlv_bounds
reader_record (some view) index true = record_in view view.buffer index

unfoldable pub read_reference : List ℕ → RecordView → Read ReferenceView
read_reference buffer r = if ltb r.payload_length reference_fixed_size then fail tlv_bounds else do
  integrity_length ← read_le32 buffer (r.payload + 36)
  if ltb (r.payload_length - reference_fixed_size) integrity_length
      then fail reference_integrity
      else do
        object_id ← read_le64 buffer (r.payload + 0)
        address ← read_le64 buffer (r.payload + 8)
        length ← read_le64 buffer (r.payload + 16)
        format_major ← read_le32 buffer (r.payload + 24)
        format_minor ← read_le32 buffer (r.payload + 28)
        integrity_kind ← read_le32 buffer (r.payload + 32)
        value (record {
          object_id = object_id;
          address = address;
          length = length;
          format_major = format_major;
          format_minor = format_minor;
          integrity_kind = integrity_kind;
          integrity = r.payload + reference_fixed_size;
          integrity_length = integrity_length;
        })

abbrev buffer_bytes : Option (List ℕ) → List ℕ
buffer_bytes none = []
buffer_bytes (some p) = p

-- The loop from record `index` on, for `left` rounds.
unfoldable pub find_from : BibView → ℕ → ℕ → ℕ → Read ReferenceView
find_from view type zero index = fail required_record
find_from view type (suc left) index = do
  r ← reader_record (some view) index true
  if r.type == type
      then read_reference (buffer_bytes view.buffer) r
      else find_from view type left (suc index)

unfoldable pub reader_find_reference : Option BibView → ℕ → Bool → Read ReferenceView
unfolding find_from
reader_find_reference none type present = fail window
reader_find_reference (some view) type false = fail window
reader_find_reference (some view) type true = find_from view type view.tlv_count 0
