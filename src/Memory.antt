-- ===== src/Memory.antt =====
-- include/atarix/memory.h and src/memory.c: the validation of a memory movement descriptor.
pub mod Valid
use atarix.Prelude.{
  ℕ, ◌+◌, ◌-◌, ◌^◌, Bool, not, ◌&&◌, Option, none, some, bit_and, bit_or, ltb, ◌==◌, if◌then◌else◌,
}
use atarix.Prelude.Word.{u32, not32}

abbrev pub descriptor_magic : ℕ
descriptor_magic = 0x584D454D

abbrev pub descriptor_version : ℕ
descriptor_version = 1

abbrev pub descriptor_max_length : ℕ
descriptor_max_length = 0x00100000

pub data MemoryStatus : Type 0 where
  ok null_descriptor bad_magic bad_version zero_length : MemoryStatus
  missing_capability missing_source missing_destination bad_flags length_exceeded : MemoryStatus

-- ATARIX_MEMORY_MOVE_COPY, MOVE, MAP, SHARE, FABRIC and ZERO_COPY.
abbrev pub move_copy : ℕ
move_copy = 0x01

abbrev pub move_move : ℕ
move_move = 0x02

abbrev pub move_map : ℕ
move_map = 0x04

abbrev pub move_share : ℕ
move_share = 0x08

abbrev pub move_fabric : ℕ
move_fabric = 0x10

abbrev pub move_zero_copy : ℕ
move_zero_copy = 0x20

abbrev pub move_form_mask : ℕ
move_form_mask =
    bit_or move_copy
      (bit_or move_move (bit_or move_map (bit_or move_share (bit_or move_fabric move_zero_copy))))

pub record MemoryDescriptor : Type 0 where
  pub magic : ℕ
  pub version : ℕ
  pub reserved : ℕ
  pub flags : ℕ
  pub source_object : ℕ
  pub source_offset : ℕ
  pub destination_object : ℕ
  pub destination_offset : ℕ
  pub length : ℕ
  pub capability_id : ℕ
  pub generation : ℕ
  pub audit_hint : ℕ

unfoldable pub exactly_one_move_form : ℕ → Bool
exactly_one_move_form flags =
    let forms = bit_and flags move_form_mask in
    not (forms == 0)
    && bit_and forms (u32 (forms + (2 ^ 32 - 1))) == 0
    && bit_and flags (not32 move_form_mask) == 0

unfoldable pub memory_descriptor_validate : Option MemoryDescriptor → MemoryStatus
memory_descriptor_validate none = null_descriptor
memory_descriptor_validate (some descriptor) =
    if not (descriptor.magic == descriptor_magic)
    then bad_magic
    else if not (descriptor.version == descriptor_version)
    then bad_version
    else if descriptor.length == 0
    then zero_length
    else if ltb descriptor_max_length descriptor.length
    then length_exceeded
    else if descriptor.capability_id == 0
    then missing_capability
    else if descriptor.source_object == 0
    then missing_source
    else if descriptor.destination_object == 0
    then missing_destination
    else if not (exactly_one_move_form descriptor.flags)
    then bad_flags
    else ok

-- The name of early sketches.
unfoldable pub validate_descriptor : Option MemoryDescriptor → MemoryStatus
validate_descriptor descriptor = memory_descriptor_validate descriptor
