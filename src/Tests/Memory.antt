-- ===== src/Tests/Memory.antt =====
-- A descriptor that copies 64 bytes.
use atarix.Prelude.{◌≡◌, ◌↔◌, some, arith}
use atarix.Memory.{
  MemoryDescriptor, ok, descriptor_magic, descriptor_version, memory_descriptor_validate,
}
use atarix.Memory.Valid.{IsValid, memory_descriptor_validate_iff}

abbrev copy : MemoryDescriptor
copy = record {
  magic = descriptor_magic;
  version = descriptor_version;
  reserved = 0;
  flags = 1;
  source_object = 11;
  source_offset = 0;
  destination_object = 12;
  destination_offset = 128;
  length = 64;
  capability_id = 7;
  generation = 1;
  audit_hint = 0;
}

memory_descriptor_validate_iff_example :
    (memory_descriptor_validate (some copy) ≡ ok) ↔ IsValid copy
memory_descriptor_validate_iff_example = memory_descriptor_validate_iff copy (omega arith)
