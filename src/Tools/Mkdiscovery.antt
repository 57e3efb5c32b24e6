-- ===== src/Tools/Mkdiscovery.antt =====
-- tools/mkdiscovery/mkdiscovery.c.
-- The image is the bytes of its local array; a copy past the end of the array is a fault. A C string is
-- its bytes.
pub mod Published
pub mod Profiles
pub mod Records
pub mod Command
pub mod Appends
pub mod Main
pub mod Checksums
use atarix.Prelude.{
  ℕ, zero, suc, ◌+◌, ◌-◌, ◌*◌, ◌/◌, ◌%◌, ◌^◌, Bool, true, false, not, ◌&&◌, ◌||◌, Option, none,
  some, List, [], ◌∷◌, ◌++◌, bit_and, bit_or, bit_xor, take, length, replicate, ltb, ◌==◌,
  if◌then◌else◌,
}
use atarix.Prelude.Outcome.{Outcome, fault, value, ◌>>=◌}
use atarix.Prelude.Word.{u16, u32, not32}
use atarix.Prelude.Text.{codes, same_text}
use atarix.Bib.Bytes.{write_bytes, write_le16, write_le32, le16, le32}
use atarix.Bib.Layout.{le64}
use atarix.Discovery.Format.{
  header_size, record_end, record_resource, record_service, magic_atdx, version_major_v1,
  make_handle,
}
use atarix.Tools.Mkdiscovery.Records.{
  RecordHeader, ResourceRecord, ServiceRecord, header_bytes, resource_bytes, resource_cpu,
  resource_cpu_health, resource_logic_analyzer, resource_supervisor, service_bytes,
  service_cpu_diagnostics, service_cpu_health, service_health, service_instrumentation,
}

abbrev pub max_image : ℕ
max_image = 4096

abbrev version_minor_v0 : ℕ
version_minor_v0 = 0

unfoldable pub crc32_bits : ℕ → ℕ → ℕ
crc32_bits zero crc = crc
crc32_bits (suc left) crc =
    let mask = u32 (2 ^ 32 - bit_and crc 1) in
    crc32_bits left (bit_xor (crc / 2) (bit_and 0xEDB88320 mask))

unfoldable pub crc32_update : ℕ → List ℕ → ℕ
crc32_update crc [] = crc
crc32_update crc (byte ∷ bytes) = crc32_update (crc32_bits 8 (bit_xor crc byte)) bytes

-- Over the first `length` bytes.
unfoldable pub crc32_iso_hdlc : List ℕ → ℕ → ℕ
crc32_iso_hdlc bytes length = not32 (crc32_update 0xFFFFFFFF (take length bytes))

unfoldable pub patch_crc32 : List ℕ → ℕ → List ℕ
patch_crc32 image image_length =
    let image = write_le32 image 24 0 in
    let image = write_le32 image 28 0 in
    let image = write_le32 image 24 (crc32_iso_hdlc image header_size) in
    write_le32 image 28 (crc32_iso_hdlc image image_length)

-- The image and `offset`, which each append moves.
pub record Cursor : Type 0 where
  pub image : List ℕ
  pub offset : ℕ

abbrev pub Copied : Type 0 → Type 0
Copied A = Outcome ⊥ A

abbrev pub memcpy : List ℕ → ℕ → List ℕ → Copied (List ℕ)
memcpy image offset src =
    if ltb (length image) (offset + length src) then fault else value (write_bytes image offset src)

-- The returned status. The subtraction is one of `size_t`.
unfoldable pub append_bytes : Cursor → ℕ → List ℕ → Copied (ℕ × Cursor)
append_bytes cursor image_capacity src =
    if ltb ((image_capacity + 2 ^ 64 - cursor.offset) % 2 ^ 64) (length src)
    then value (1, cursor)
    else do
      image ← memcpy cursor.image cursor.offset src
      value (0, record { image = image; offset = cursor.offset + length src })

unfoldable pub append_end : Cursor → ℕ → Copied (ℕ × Cursor)
append_end cursor image_capacity =
    append_bytes cursor image_capacity
      (header_bytes (record { type = record_end; version = 1; length = 8 }))

unfoldable pub append_resource : Cursor → ℕ → ℕ → ℕ → ℕ → Copied (ℕ × Cursor)
append_resource cursor image_capacity type provider_id instance_id =
    append_bytes cursor image_capacity (
      resource_bytes (record {
        header = record { type = record_resource; version = 1; length = 32 };
        resource_type_id = type;
        resource_version = 1;
        resource_flags = 0;
        resource_handle = make_handle (u16 provider_id) type instance_id;
        provider_id = provider_id;
        instance_id = instance_id;
      }))

unfoldable pub append_service : Cursor → ℕ → ℕ → ℕ → ℕ → Copied (ℕ × Cursor)
append_service cursor image_capacity service_id provider_id instance_id =
    append_bytes cursor image_capacity (
      service_bytes (record {
        header = record { type = record_service; version = 1; length = 32 };
        service_id = service_id;
        service_version = 1;
        service_flags = 0;
        service_handle = make_handle (u16 provider_id) service_id instance_id;
        provider_id = provider_id;
        instance_id = instance_id;
      }))

-- What is printed to stderr.
pub data Message : Type 0 where
  unknown_profile does_not_fit usage : Message

-- The local variables of `build_profile`.
pub record Building : Type 0 where
  pub append_status : ℕ
  pub cursor : Cursor
  pub record_count : ℕ

-- `append_status |= append_…(…); record_count++;`
abbrev also : Building → (Cursor → Copied (ℕ × Cursor)) → Copied Building
also b append = do
  (status, cursor) ← append b.cursor
  value (record {
    append_status = bit_or b.append_status status;
    cursor = cursor;
    record_count = u32 (b.record_count + 1);
  })

abbrev resource : Building → ℕ → ℕ → ℕ → ℕ → Copied Building
resource b capacity type provider_id instance_id =
    also b (λ c. append_resource c capacity type provider_id instance_id)

abbrev service : Building → ℕ → ℕ → ℕ → ℕ → Copied Building
service b capacity service_id provider_id instance_id =
    also b (λ c. append_service c capacity service_id provider_id instance_id)

-- `header->provider_id = provider_id`
abbrev with_provider : Building → ℕ → Building
with_provider b provider_id = record b {
  cursor = record { image = write_le32 b.cursor.image 16 provider_id; offset = b.cursor.offset };
}

-- The chain of tests on the profile's name; `none` is the unknown one.
unfoldable pub append_profile : List ℕ → Building → ℕ → Copied (Option Building)
append_profile profile b capacity =
    if same_text profile (codes "minimal")
    then value (some b)
    else if same_text profile (codes "cpu-card")
    then (do
      b ← resource b capacity resource_cpu 3 1
      b ← resource b capacity resource_cpu_health 3 1
      b ← service b capacity service_cpu_diagnostics 3 1
      b ← service b capacity service_cpu_health 3 1
      value (some b))
    else if same_text profile (codes "supervisor")
    then (do
      b ← resource (with_provider b 1) capacity resource_supervisor 1 1
      b ← service b capacity service_health 1 1
      value (some b))
    else if same_text profile (codes "instrumentation")
    then (do
      b ← resource (with_provider b 5) capacity resource_logic_analyzer 5 1
      b ← service b capacity service_instrumentation 5 1
      value (some b))
    else value none

-- What `build_profile` leaves: its status, what it printed, and on success the image and its length.
pub data Profile : Type 0 where
  refused : Message → Profile
  built : List ℕ → ℕ → Profile

-- From the END record on.
unfoldable pub finish : Option Building → ℕ → Copied Profile
finish none capacity = value (refused unknown_profile)
finish (some b) capacity = do
  b ← also b (λ c. append_end c capacity)
  if not (b.append_status == 0)
      then value (refused does_not_fit)
      else (let image = write_le32 b.cursor.image 8 (u32 b.cursor.offset) in
          let image = write_le32 image 12 b.record_count in
          value (built (patch_crc32 image b.cursor.offset) b.cursor.offset))

-- The header before the records. Writes through the header's pointer are inside of the cleared bytes.
unfoldable pub start_image : List ℕ → ℕ → Copied (List ℕ)
start_image image capacity = do
  image ← memcpy image 0 (replicate capacity 0)
  if ltb (length image) header_size
      then fault
      else (let image = write_le32 image 0 magic_atdx in
          let image = write_le16 image 4 version_major_v1 in
          let image = write_le16 image 6 version_minor_v0 in value (write_le32 image 16 3))

unfoldable pub build_profile : List ℕ → List ℕ → ℕ → Copied Profile
build_profile profile image capacity = do
  image ← start_image image capacity
  b ←
      append_profile profile
        (record {
          append_status = 0;
          cursor = record { image = image; offset = header_size };
          record_count = 0;
        })
        capacity
  finish b capacity
