-- ===== src/Tools/Bibdump.antt =====
-- tools/bibdump/bibdump.c. What is printed is a list of lines, each with the values in it; the files are
-- given by what the calls on them return.
pub mod Safety
pub mod Captured
use atarix.Prelude.{
  ℕ, zero, suc, ◌+◌, ◌*◌, ◌^◌, Bool, true, false, not, ◌||◌, Option, none, some, List, [], ◌∷◌,
  ◌++◌, length, ltb, ◌==◌, if◌then◌else◌,
}
use atarix.Prelude.Outcome.{Outcome, fault, fail, value, ◌>>=◌}
use atarix.Prelude.Text.{codes}
use atarix.Prelude.Word.{has_flag}
use atarix.Bib.Format
use atarix.Bib.Format.{
  BibError, ok, window, bad_magic, version, header_length, total_length, bad_crc, header_reserved,
  tlv_bounds, tlv_reserved, unknown_mandatory, required_record, reference_overflow,
  reference_authority, reference_integrity, recommended_max_size, flag_recovery_boot,
  flag_degraded_boot, flag_secure_policy_active, flag_diagnostic_boot, flag_mandatory,
  flag_sensitive, service_directory_reference, memory_map_reference, boot_device_identity,
  boot_image_identity, boot_arguments, console_service_identity, supervisor_service_identity,
  audit_log_reference, firmware_build_identity, entropy_seed_reference, tlv_type_is_experimental,
}
use atarix.Bib.Reader.{
  Read, BibView, zero_view, RecordView, ReferenceView, reader_open, reader_record,
  reader_find_reference,
}

unfoldable pub error_name : BibError → List ℕ
error_name ok = codes "ok"
error_name window = codes "invalid-window"
error_name bad_magic = codes "invalid-magic"
error_name version = codes "unsupported-version"
error_name header_length = codes "invalid-header-length"
error_name total_length = codes "invalid-total-length"
error_name bad_crc = codes "crc-mismatch"
error_name header_reserved = codes "invalid-header-reserved"
error_name tlv_bounds = codes "invalid-tlv-bounds"
error_name tlv_reserved = codes "invalid-tlv-reserved"
error_name unknown_mandatory = codes "unknown-mandatory-record"
error_name required_record = codes "required-record-error"
error_name reference_overflow = codes "reference-overflow"
error_name reference_authority = codes "reference-authority-error"
error_name reference_integrity = codes "reference-integrity-error"

unfoldable pub type_name : ℕ → List ℕ
type_name type =
    if type == 0
    then codes "reserved"
    else if type == service_directory_reference
    then codes "service-directory-reference"
    else if type == memory_map_reference
    then codes "memory-map-reference"
    else if type == boot_device_identity
    then codes "boot-device-identity"
    else if type == boot_image_identity
    then codes "boot-image-identity"
    else if type == boot_arguments
    then codes "boot-arguments"
    else if type == console_service_identity
    then codes "console-service-identity"
    else if type == supervisor_service_identity
    then codes "supervisor-service-identity"
    else if type == audit_log_reference
    then codes "audit-log-reference"
    else if type == firmware_build_identity
    then codes "firmware-build-identity"
    else if type == entropy_seed_reference
    then codes "entropy-seed-reference"
    else if tlv_type_is_experimental type
    then codes "experimental"
    else codes "unknown"

unfoldable pub is_reference_type : ℕ → Bool
is_reference_type type =
    type == service_directory_reference
    || type == memory_map_reference
    || type == audit_log_reference
    || type == entropy_seed_reference

-- What is printed, on stdout and on stderr, in the order of the calls.
pub data Line : Type 0 where
  format_line version_line : Line
  total_length_line boot_id_line producer_id_line created_counter_line record_count_line : ℕ → Line
  flags_line : ℕ → List (List ℕ) → Line
  type_line : ℕ → ℕ → List ℕ → Line
  record_flags_line : ℕ → ℕ → Bool → Bool → Line
  payload_length_line : ℕ → ℕ → Line
  object_id_line address_line length_line integrity_kind_line integrity_length_line : ℕ → ℕ → Line
  reference_format_line : ℕ → ℕ → ℕ → Line
  redacted_line opaque_line : ℕ → Line
  invalid_bib : BibError → List ℕ → Line
  record_error reference_error : ℕ → List ℕ → Line
  usage_error cannot_open cannot_size exceeds_limit allocation_failed cannot_read : Line

-- The files, by what the calls return: whether `fopen` and the seeks succeed, what `ftell` says, whether
-- `malloc` gives memory, and what `fread` reads of that many bytes.
pub record File : Type 0 where
  pub opens : Bool
  pub seeks : Bool
  pub size : ℕ
  pub allocates : Bool
  pub reads : ℕ → List ℕ

-- The buffer, or the error that was printed. A short read is told by the number of bytes.
unfoldable pub read_file : File → Outcome Line (List ℕ)
read_file file =
    if not file.opens
    then fail cannot_open
    else if not file.seeks
    then fail cannot_size
    else if ltb recommended_max_size file.size
    then fail exceeds_limit
    else if not file.allocates
    then fail allocation_failed
    else if file.size == 0
    then value []
    else if not (length (file.reads file.size) == file.size)
    then fail cannot_read
    else value (file.reads file.size)

-- The words behind the number, where their test holds.
abbrev word_if : Bool → List ℕ → List (List ℕ) → List (List ℕ)
word_if true word words = word ∷ words
word_if false word words = words

unfoldable pub print_header_flags : ℕ → Line
print_header_flags flags = flags_line flags (
    word_if (flags == 0) (codes " none") (
      word_if (has_flag flags flag_recovery_boot) (codes " recovery") (
        word_if (has_flag flags flag_degraded_boot) (codes " degraded") (
          word_if (has_flag flags flag_secure_policy_active) (codes " secure-policy")
            (word_if (has_flag flags flag_diagnostic_boot) (codes " diagnostic") [])))))

-- What was printed, and the returned code.
pub record Dump : Type 0 where
  pub lines : List Line
  pub code : ℕ

abbrev pub Dumped : Type 0
Dumped = Outcome ⊥ Dump

abbrev pub printed : List Line → Dumped → Dumped
printed lines fault = fault
printed lines (fail e) = fail e
printed lines (value dump) = value (record { lines = lines ++ dump.lines; code = dump.code })

abbrev pub record_lines : ℕ → RecordView → List Line
record_lines index r =
    type_line index r.type (type_name r.type)
    ∷ record_flags_line index r.flags (has_flag r.flags flag_mandatory)
        (has_flag r.flags flag_sensitive)
    ∷ payload_length_line index r.payload_length
    ∷ []

abbrev pub reference_lines : ℕ → ReferenceView → List Line
reference_lines index r =
    object_id_line index r.object_id
    ∷ address_line index r.address
    ∷ length_line index r.length
    ∷ reference_format_line index r.format_major r.format_minor
    ∷ integrity_kind_line index r.integrity_kind
    ∷ integrity_length_line index r.integrity_length
    ∷ []

-- The reference that the reader finds for the type, and what follows.
abbrev pub dump_reference : ℕ → Read ReferenceView → Dumped → Dumped
dump_reference index fault rest = fault
dump_reference index (fail e) rest =
    value (record { lines = reference_error index (error_name e) ∷ []; code = 2 })
dump_reference index (value reference) rest = printed (reference_lines index reference) rest

unfoldable pub dump_record : BibView → ℕ → RecordView → Dumped → Dumped
dump_record view index r rest = printed (record_lines index r) (
    if is_reference_type r.type
    then dump_reference index (reader_find_reference (some view) r.type true) rest
    else if has_flag r.flags flag_sensitive
    then printed (redacted_line index ∷ []) rest
    else printed (opaque_line index ∷ []) rest)

abbrev pub dump_read : BibView → ℕ → Read RecordView → Dumped → Dumped
dump_read view index fault rest = fault
dump_read view index (fail e) rest =
    value (record { lines = record_error index (error_name e) ∷ []; code = 2 })
dump_read view index (value r) rest = dump_record view index r rest

-- The loop from record `index` on, for `left` rounds.
unfoldable pub dump_from : BibView → ℕ → ℕ → Dumped
unfolding dump_record
dump_from view zero index = value (record { lines = []; code = 0 })
dump_from view (suc left) index =
    let rest = dump_from view left (suc index) in
    dump_read view index (reader_record (some view) index true) rest

abbrev pub view_lines : BibView → List Line
view_lines view =
    format_line
    ∷ version_line
    ∷ total_length_line view.total_length
    ∷ print_header_flags view.flags
    ∷ boot_id_line view.boot_id
    ∷ producer_id_line view.producer_id
    ∷ created_counter_line view.created_counter
    ∷ record_count_line view.tlv_count
    ∷ []

-- After `atarix_bib_reader_open`.
unfoldable pub dump_opened : Read (BibError × Option BibView) → Dumped
dump_opened fault = fault
dump_opened (fail e) = value (record { lines = invalid_bib e (error_name e) ∷ []; code = 2 })
dump_opened (value (ok, some view)) = printed (view_lines view) (dump_from view view.tlv_count 0)
dump_opened (value (ok, none)) = fault
dump_opened (value (e, view)) =
    value (record { lines = invalid_bib e (error_name e) ∷ []; code = 2 })

-- The view is a local variable, given with what happens to be in it.
unfoldable pub dump_bib : BibView → List ℕ → ℕ → Dumped
dump_bib local buffer length = dump_opened (reader_open (some local) (some buffer) length)

abbrev run_with : BibView → Outcome Line (List ℕ) → Dumped
run_with local fault = fault
run_with local (fail line) = value (record { lines = line ∷ []; code = 1 })
run_with local (value buffer) = dump_bib local buffer (length buffer)

-- `argc` is the number of the arguments with the program's name.
unfoldable pub main : BibView → ℕ → File → Dumped
main local argc file =
    if not (argc == 2)
    then value (record { lines = usage_error ∷ []; code = 64 })
    else run_with local (read_file file)
