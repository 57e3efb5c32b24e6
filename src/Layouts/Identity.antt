-- ===== src/Layouts/Identity.antt =====
-- include/atarix/identity_eeprom.h: the identity block of a board, and the tests on it.
use atarix.Prelude.{ℕ, Bool, List, leb, ◌==◌}

abbrev magic_atix : ℕ
magic_atix = 0x58495441

abbrev vendor_homebrew_base : ℕ
vendor_homebrew_base = 0xFFF00000

-- The board's name and the reserved bytes are arrays of bytes.
pub record IdentityEeprom : Type 0 where
  pub magic : ℕ
  pub format_version : ℕ
  pub header_length : ℕ
  pub total_record_length : ℕ
  pub vendor_id : ℕ
  pub device_id : ℕ
  pub serial_number : ℕ
  pub board_revision : ℕ
  pub board_class : ℕ
  pub trust_class : ℕ
  pub reserved_alignment : ℕ
  pub manufacture_timestamp : ℕ
  pub boot_firmware_revision : ℕ
  pub provisioning_tool_revision : ℕ
  pub capability_flags : ℕ
  pub board_name : List ℕ
  pub provisioning_revision : ℕ
  pub provisioning_timestamp : ℕ
  pub factory_test_signature : ℕ
  pub crc32 : ℕ
  pub reserved : List ℕ

unfoldable pub vendor_is_homebrew : ℕ → Bool
vendor_is_homebrew vendor_id = leb vendor_homebrew_base vendor_id

unfoldable pub identity_magic_is_valid : ℕ → Bool
identity_magic_is_valid magic = magic == magic_atix
