-- ===== src/Discovery/Format.antt =====
-- include/atarix/discovery.h and include/atarix/discovery_parser.h: sizes, record types, results, and
-- the handles that name resources and services.
pub mod Handles
use atarix.Prelude.{ℕ, ◌+◌, ◌*◌, ◌/◌, ◌^◌, Bool, ◌&&◌, bit_and, bit_or, leb, ◌==◌}
use atarix.Prelude.Word.{u16, u32}

abbrev pub magic_atdx : ℕ
magic_atdx = 0x58445441

abbrev pub version_major_v1 : ℕ
version_major_v1 = 1

abbrev pub header_size : ℕ
header_size = 32

abbrev pub record_header_size : ℕ
record_header_size = 8

abbrev pub record_resource : ℕ
record_resource = 0x0001

abbrev pub record_service : ℕ
record_service = 0x0002

abbrev pub record_dependency : ℕ
record_dependency = 0x0004

abbrev pub record_instrumentation : ℕ
record_instrumentation = 0x0005

abbrev pub record_vendor_begin : ℕ
record_vendor_begin = 0x8000

abbrev pub record_vendor_end : ℕ
record_vendor_end = 0xFFFE

abbrev pub record_end : ℕ
record_end = 0xFFFF

pub data DiscoveryResult : Type 0 where
  ok error_null too_small bad_magic unsupported_version bad_length : DiscoveryResult
  bad_alignment truncated_record missing_end duplicate_handle capacity bad_crc : DiscoveryResult

unfoldable pub handle_provider16 : ℕ → ℕ
handle_provider16 handle = u16 (bit_and (handle / 2 ^ 48) 0xFFFF)

unfoldable pub handle_type : ℕ → ℕ
handle_type handle = u16 (bit_and (handle / 2 ^ 32) 0xFFFF)

unfoldable pub handle_instance : ℕ → ℕ
handle_instance handle = u32 (bit_and handle 0xFFFFFFFF)

unfoldable pub make_handle : ℕ → ℕ → ℕ → ℕ
make_handle provider_id_low16 type_id instance_id =
    bit_or (bit_or (provider_id_low16 * 2 ^ 48) (type_id * 2 ^ 32)) instance_id

unfoldable pub magic_is_valid : ℕ → Bool
magic_is_valid magic = magic == magic_atdx

unfoldable pub record_is_vendor_specific : ℕ → Bool
record_is_vendor_specific type = leb record_vendor_begin type && leb type record_vendor_end

-- `atarix_offset_aligned8` and `atarix_is_aligned8`
unfoldable pub aligned8 : ℕ → Bool
aligned8 offset = bit_and offset 7 == 0
