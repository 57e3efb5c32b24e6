-- ===== src/Bib/Format.antt =====
-- include/atarix/bib.h: the constants of the boot information block, and its tests.
use atarix.Prelude.{ℕ, ◌^◌, ◌*◌, Bool, List, [], ◌∷◌, bit_and, leb, ◌==◌}
use atarix.Prelude.Word.{not16}

abbrev pub version_major_v1 : ℕ
version_major_v1 = 1

abbrev pub version_minor_v0 : ℕ
version_minor_v0 = 0

abbrev pub header_size : ℕ
header_size = 64

abbrev pub tlv_header_size : ℕ
tlv_header_size = 16

abbrev pub reference_fixed_size : ℕ
reference_fixed_size = 40

abbrev pub recommended_max_size : ℕ
recommended_max_size = 64 * 1024

abbrev pub header_known_flags : ℕ
header_known_flags = 0x000F

abbrev pub tlv_known_flags : ℕ
tlv_known_flags = 0x0003

abbrev pub flag_recovery_boot : ℕ
flag_recovery_boot = 2 ^ 0

abbrev pub flag_degraded_boot : ℕ
flag_degraded_boot = 2 ^ 1

abbrev pub flag_secure_policy_active : ℕ
flag_secure_policy_active = 2 ^ 2

abbrev pub flag_diagnostic_boot : ℕ
flag_diagnostic_boot = 2 ^ 3

abbrev pub flag_mandatory : ℕ
flag_mandatory = 2 ^ 0

abbrev pub flag_sensitive : ℕ
flag_sensitive = 2 ^ 1

abbrev pub service_directory_reference : ℕ
service_directory_reference = 0x0001

abbrev pub memory_map_reference : ℕ
memory_map_reference = 0x0002

abbrev pub boot_device_identity : ℕ
boot_device_identity = 0x0003

abbrev pub boot_image_identity : ℕ
boot_image_identity = 0x0004

abbrev pub boot_arguments : ℕ
boot_arguments = 0x0005

abbrev pub console_service_identity : ℕ
console_service_identity = 0x0006

abbrev pub supervisor_service_identity : ℕ
supervisor_service_identity = 0x0007

abbrev pub audit_log_reference : ℕ
audit_log_reference = 0x0008

abbrev pub firmware_build_identity : ℕ
firmware_build_identity = 0x0009

abbrev pub entropy_seed_reference : ℕ
entropy_seed_reference = 0x000A

abbrev pub experimental_begin : ℕ
experimental_begin = 0x8000

-- "ATARXBIB"
abbrev pub magic : List ℕ
magic = b'A' ∷ b'T' ∷ b'A' ∷ b'R' ∷ b'X' ∷ b'B' ∷ b'I' ∷ b'B' ∷ []

pub data BibError : Type 0 where
  ok window bad_magic version header_length total_length bad_crc header_reserved tlv_bounds :
      BibError
  tlv_reserved unknown_mandatory required_record reference_overflow : BibError
  reference_authority reference_integrity : BibError

unfoldable pub length_is_aligned : ℕ → Bool
length_is_aligned length = bit_and length 7 == 0

unfoldable pub header_flags_are_known : ℕ → Bool
header_flags_are_known flags = bit_and flags (not16 header_known_flags) == 0

unfoldable pub tlv_flags_are_known : ℕ → Bool
tlv_flags_are_known flags = bit_and flags (not16 tlv_known_flags) == 0

unfoldable pub tlv_type_is_experimental : ℕ → Bool
tlv_type_is_experimental type = leb experimental_begin type
