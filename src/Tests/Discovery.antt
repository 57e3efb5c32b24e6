-- ===== src/Tests/Discovery.antt =====
-- An image of one resource record and the END record, and databases with room for two resources. The last
-- image has a resource record of 8 bytes; it validates, and is read past its end.
use atarix.Prelude.{
  ℕ, ◌+◌, ◌≡◌, refl, inl, none, some, List, [], ◌∷◌, ◌++◌, replicate, length, ◌==◌, arith,
  if◌then◌else◌,
}
use atarix.Prelude.Outcome.{fault, value, read_le16, read_le32, read_le64, IsSafe}
use atarix.Bib.Bytes.{write_bytes}
use atarix.Discovery.Format.{
  DiscoveryResult, record_resource, ok, make_handle, magic_is_valid, aligned8,
}
use atarix.Discovery.Database.{
  ResourceEntry, Database, holds_handle, find_resource, database_contains_handle,
}
use atarix.Discovery.Database.Laws.{IsDatabase}
use atarix.Discovery.Validate.{
  crc32_bits, crc32_update, crc32_iso_hdlc, first_bytes, image_crc_valid, crc_valid, walk,
  validate_records, validate_header, validate,
}
use atarix.Discovery.Validate.Safety.{validate-IsSafe}
use atarix.Discovery.Validate.Records.{IsImage, validate-IsImage}
use atarix.Discovery.Parse.{
  first_record, next_record, add_resource, add_record, parse_from, parse_validated, parse,
}
use atarix.Discovery.Parse.Tables.{find_resource-add}
use atarix.Discovery.Parse.Short.{parse-short}
use atarix.Discovery.Parse.Runs.{Ends, parse-IsDatabase, parse-Ends}

abbrev image : List ℕ
image =
    65 ∷ 84 ∷ 68 ∷ 88 ∷ 1 ∷ 0 ∷ 0 ∷ 0 ∷ 72 ∷ 0 ∷ 0 ∷ 0 ∷ 2 ∷ 0 ∷ 0 ∷ 0 ∷ 7 ∷ 0 ∷ 0 ∷ 0 ∷ 0 ∷ 0 ∷ 0
    ∷ 0 ∷ 195 ∷ 68 ∷ 248 ∷ 50 ∷ 67 ∷ 116 ∷ 217 ∷ 217 ∷ 1 ∷ 0 ∷ 1 ∷ 0 ∷ 32 ∷ 0 ∷ 0 ∷ 0 ∷ 5 ∷ 0 ∷ 1
    ∷ 0 ∷ 0 ∷ 0 ∷ 0 ∷ 0 ∷ 9 ∷ 0 ∷ 0 ∷ 0 ∷ 5 ∷ 0 ∷ 7 ∷ 0 ∷ 7 ∷ 0 ∷ 0 ∷ 0 ∷ 9 ∷ 0 ∷ 0 ∷ 0 ∷ 255 ∷ 255
    ∷ 1 ∷ 0 ∷ 8 ∷ 0 ∷ 0 ∷ 0 ∷ []

abbrev short_image : List ℕ
short_image =
    65 ∷ 84 ∷ 68 ∷ 88 ∷ 1 ∷ 0 ∷ 0 ∷ 0 ∷ 48 ∷ 0 ∷ 0 ∷ 0 ∷ 2 ∷ 0 ∷ 0 ∷ 0 ∷ 7 ∷ 0 ∷ 0 ∷ 0 ∷ 0 ∷ 0 ∷ 0
    ∷ 0 ∷ 143 ∷ 3 ∷ 148 ∷ 71 ∷ 184 ∷ 69 ∷ 72 ∷ 99 ∷ 1 ∷ 0 ∷ 1 ∷ 0 ∷ 8 ∷ 0 ∷ 0 ∷ 0 ∷ 255 ∷ 255 ∷ 1
    ∷ 0 ∷ 8 ∷ 0 ∷ 0 ∷ 0 ∷ []

abbrev blank_entry : ResourceEntry
blank_entry = record {
  handle = 0;
  resource_type = 0;
  resource_version = 0;
  resource_flags = 0;
  provider_id = 0;
  instance_id = 0;
}

abbrev added_entry : ResourceEntry
added_entry = record {
  handle = make_handle 7 5 9;
  resource_type = 5;
  resource_version = 1;
  resource_flags = 0;
  provider_id = 7;
  instance_id = 9;
}

abbrev with_resources : List ResourceEntry → ℕ → Database
with_resources entries count = record {
  resources = some entries;
  resource_capacity = 2;
  resource_count = count;
  services = none;
  service_capacity = 0;
  service_count = 0;
  dependencies = none;
  dependency_capacity = 0;
  dependency_count = 0;
  instrumentation = none;
  instrumentation_capacity = 0;
  instrumentation_count = 0;
}

abbrev empty : Database
empty = with_resources (blank_entry ∷ blank_entry ∷ []) 0

abbrev filled : Database
filled = with_resources (added_entry ∷ blank_entry ∷ []) 1

empty-IsDatabase : IsDatabase empty
empty-IsDatabase = record {
  resources = record {
    bounded = omega arith;
    sized = λ xs e. ap_length (blank_entry ∷ blank_entry ∷ []) xs e;
  };
  services = record { bounded = omega arith; sized = λ xs e. cc };
  dependencies = record { bounded = omega arith; sized = λ xs e. cc };
  instrumentation = record { bounded = omega arith; sized = λ xs e. cc };
  unique = λ h. omega arith;
}
  where
    ap_length : {A : Type 0} (xs ys : List A) → some xs ≡ some ys → length ys ≡ length xs
    ap_length xs ys e = let same : xs ≡ ys = cc in rw same refl

image_valid : validate (some image) 72 ≡ value tt
unfolding validate validate_header validate_records walk crc_valid image_crc_valid first_bytes
    crc32_iso_hdlc crc32_update crc32_bits write_bytes read_le16 read_le32 magic_is_valid aligned8
image_valid = refl

validate-IsSafe_example : IsSafe (validate (some image) 72)
validate-IsSafe_example = validate-IsSafe image 72 (omega arith)

validate-IsImage_example : (total records : ℕ) × IsImage image 72 total records
validate-IsImage_example = validate-IsImage image 72 image_valid

abbrev mapped : List ℕ
mapped = image ++ replicate 24 0

mapped_valid : validate (some mapped) 72 ≡ value tt
unfolding validate validate_header validate_records walk crc_valid image_crc_valid first_bytes
    crc32_iso_hdlc crc32_update crc32_bits write_bytes read_le16 read_le32 magic_is_valid aligned8
mapped_valid = refl

parse-Ends_example : Ends (parse (some mapped) 72 (some empty))
parse-Ends_example = parse-Ends mapped 72 empty mapped_valid (omega arith) empty-IsDatabase

parse_run : parse (some image) 72 (some empty) ≡ value (ok, some filled)
unfolding parse parse_validated parse_from first_record next_record add_record add_resource
    database_contains_handle holds_handle make_handle read_le16 read_le32 read_le64 aligned8
parse_run = rw image_valid refl

parse-IsDatabase_example : IsDatabase filled
parse-IsDatabase_example =
    parse-IsDatabase (some image) 72 empty filled ok empty-IsDatabase parse_run

find_resource-add_example :
    (entry : ResourceEntry) × (read_le64 {E = DiscoveryResult × Database} image (32 + 16)
      ≡ value entry.handle)
    × (read_le32 {E = DiscoveryResult × Database} image (32 + 24) ≡ value entry.provider_id)
    × (read_le32 {E = DiscoveryResult × Database} image (32 + 28) ≡ value entry.instance_id)
    × ((handle : ℕ)
        → find_resource (some filled) handle
          ≡ (if entry.handle == handle then some entry else find_resource (some empty) handle))
unfolding add_resource database_contains_handle holds_handle make_handle read_le16 read_le32
    read_le64
find_resource-add_example = find_resource-add image 32 empty filled empty-IsDatabase refl

short_valid : validate (some short_image) 48 ≡ value tt
unfolding validate validate_header validate_records walk crc_valid image_crc_valid first_bytes
    crc32_iso_hdlc crc32_update crc32_bits write_bytes read_le16 read_le32 magic_is_valid aligned8
short_valid = refl

parse-short_example : parse (some short_image) 48 (some empty) ≡ fault
unfolding read_le16
parse-short_example =
    parse-short short_image 48 record_resource empty short_valid refl refl (inl refl) (omega arith)
