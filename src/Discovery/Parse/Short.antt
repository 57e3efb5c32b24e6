-- ===== src/Discovery/Parse/Short.antt =====
-- Records that are shorter than the parser takes them to be.
use atarix.Prelude.{
  ℕ, zero, suc, ◌+◌, ◌<◌, ◌≡◌, ◌⊎◌, inl, inr, refl, false, some, List, length, ltb, ◌==◌, arith,
}
use atarix.Prelude.Outcome.{fault, value, read_le16}
use atarix.Prelude.Outcome.Rules.{read_le64_past}
use atarix.Discovery.Format.{
  record_resource, record_service, record_instrumentation, DiscoveryResult, header_size, record_end,
}
use atarix.Discovery.Database.{Database}
use atarix.Discovery.Validate.{validate}
use atarix.Discovery.Validate.Records.{validate-IsImage}
use atarix.Discovery.Parse.{
  first_record, add_resource, add_service, add_instrumentation, add_record, parse_from,
  parse_validated, parse,
}

-- The records that fill a table with handles.
abbrev pub HasHandle : ℕ → Type 0
HasHandle type =
    (type ≡ record_resource) ⊎ (type ≡ record_service) ⊎ (type ≡ record_instrumentation)

add_record_past :
    (image : List ℕ) (offset type : ℕ) (db : Database)
    → HasHandle type
    → length image < offset + 24
    → add_record image offset type db ≡ fault
unfolding add_record add_resource add_service add_instrumentation
add_record_past image offset type db (inl e) h =
    rw (e, read_le64_past {E = DiscoveryResult × Database} image (offset + 16) (omega arith)) refl
add_record_past image offset type db (inr (inl e)) h =
    rw (e, read_le64_past {E = DiscoveryResult × Database} image (offset + 16) (omega arith)) refl
add_record_past image offset type db (inr (inr e)) h =
    rw (e, read_le64_past {E = DiscoveryResult × Database} image (offset + 16) (omega arith)) refl

first_record_past :
    (fuel : ℕ) (image : List ℕ) (image_size type : ℕ) (db : Database)
    → 0 < fuel
    → read_le16 {E = DiscoveryResult × Database} image header_size ≡ value type
    → HasHandle type
    → length image < header_size + 24
    → parse_from fuel image image_size (some header_size) db ≡ fault
unfolding parse_from
first_record_past zero image image_size type db some_fuel reads handled short = absurd (omega arith)
first_record_past (suc fuel) image image_size type db some_fuel reads handled short =
    let not_end : (type == record_end) ≡ false = ground arith in
    rw (reads, not_end, add_record_past image header_size type db handled short) refl

-- A validated image that ends less than 24 bytes behind the start of a first record with a handle is
-- read past its end.
pub parse-short :
    (image : List ℕ) (image_size type : ℕ) (db : Database)
    → validate (some image) image_size ≡ value tt
    → image_size ≡ length image
    → read_le16 {E = DiscoveryResult × Database} image header_size ≡ value type
    → HasHandle type
    → image_size < header_size + 24
    → parse (some image) image_size (some db) ≡ fault
unfolding parse parse_validated first_record
parse-short image image_size type db valid exact reads handled short =
    let (total, records, i) = validate-IsImage image image_size valid in
    let first : ltb image_size header_size ≡ false = ground (arith, i.header, i.within) in
    let faults_first : parse_from image_size image image_size (some header_size) db ≡ fault =
      first_record_past image_size image image_size type db (omega (arith, i.header, i.within))
        reads handled (omega arith) in
    rw (valid, first, faults_first) refl
