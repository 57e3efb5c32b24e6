-- ===== src/Layouts/Directory.antt =====
-- include/atarix/directory.h: the service directory's header and entries, and the tests on them.
use atarix.Prelude.{ℕ, ◌^◌, Bool, ◌==◌}
use atarix.Prelude.Word.{has_flag}

abbrev magic_atdr : ℕ
magic_atdr = 0x52445441

abbrev flag_available : ℕ
flag_available = 2 ^ 0

abbrev flag_authorized : ℕ
flag_authorized = 2 ^ 1

pub record DirectoryHeader : Type 0 where
  pub magic : ℕ
  pub version_major : ℕ
  pub version_minor : ℕ
  pub total_length : ℕ
  pub entry_count : ℕ
  pub flags : ℕ
  pub header_crc32 : ℕ
  pub directory_crc32 : ℕ
  pub reserved : ℕ

pub record DirectoryEntry : Type 0 where
  pub service_handle : ℕ
  pub provider_handle : ℕ
  pub service_id : ℕ
  pub provider_id : ℕ
  pub flags : ℕ
  pub binding_type : ℕ
  pub binding_handle : ℕ
  pub required_capability_handle : ℕ
  pub minimum_ring : ℕ
  pub reserved : ℕ

unfoldable pub directory_magic_is_valid : ℕ → Bool
directory_magic_is_valid magic = magic == magic_atdr

unfoldable pub entry_is_available : ℕ → Bool
entry_is_available flags = has_flag flags flag_available

unfoldable pub entry_is_authorized : ℕ → Bool
entry_is_authorized flags = has_flag flags flag_authorized
