-- ===== src/Sim/Capture.antt =====
-- include/atarix/sim_bib.h and src/sim/sim_bib.c: a boot information block with the two required
-- references, captured from a configuration.
pub mod Laws
pub mod Opened
pub mod Steps
use atarix.Prelude.{
  ℕ, ◌+◌, ◌^◌, ◌≤◌, ◌≡◌, ◌↔◌, refl, Bool, true, false, not, ◌||◌, Option, none, some, List, arith,
  ltb, ◌==◌, if◌then◌else◌,
}
use atarix.Bib.Format.{
  header_size, flag_mandatory, service_directory_reference, memory_map_reference,
  header_flags_are_known, tlv_flags_are_known,
}
use atarix.Bib.Builder.{
  BuilderResult, ok, e_argument, BibBuilder, u32_max, builder_init, builder_add_tlv,
  builder_add_reference, builder_seal, add_tlv, append_record, align8_u32,
}

abbrev pub capture_size : ℕ
capture_size = 176

pub record CaptureConfig : Type 0 where
  pub header_flags : ℕ
  pub boot_id : ℕ
  pub producer_id : ℕ
  pub created_counter : ℕ
  pub service_object_id : ℕ
  pub service_address : ℕ
  pub service_length : ℕ
  pub memory_object_id : ℕ
  pub memory_address : ℕ
  pub memory_length : ℕ

-- The local builder before its initialisation, which writes all of it or fails.
abbrev pub local_builder : BibBuilder
local_builder = record { buffer = none; capacity = 0; length = 0; tlv_count = 0; sealed = false }

-- The caller's buffer, which the builder writes.
abbrev pub written : Option BibBuilder → Option (List ℕ)
written none = none
written (some builder) = builder.buffer

-- After the memory map's reference.
unfoldable pub capture_sealed :
    BuilderResult × Option BibBuilder → BuilderResult × Option (List ℕ) × Option ℕ
capture_sealed (ok, builder) =
    let (result, after, length) = builder_seal builder in (result, written after, length)
capture_sealed (result, builder) = (result, written builder, none)

-- After the service directory's reference.
unfoldable pub capture_memory :
    CaptureConfig → BuilderResult × Option BibBuilder → BuilderResult × Option (List ℕ) × Option ℕ
capture_memory config (ok, builder) = capture_sealed (
    builder_add_reference builder memory_map_reference flag_mandatory config.memory_object_id
      config.memory_address config.memory_length 1 0)
capture_memory config (result, builder) = (result, written builder, none)

-- After the initialisation, which leaves the buffer alone when it fails.
unfoldable pub capture_service :
    CaptureConfig
    → List ℕ
    → BuilderResult × Option BibBuilder
    → BuilderResult × Option (List ℕ) × Option ℕ
capture_service config p (ok, builder) = capture_memory config (
    builder_add_reference builder service_directory_reference flag_mandatory
      config.service_object_id config.service_address config.service_length 1 0)
capture_service config p (result, builder) = (result, some p, none)

-- The result, the buffer after the call, and what is stored through `serialized_length`, a pointer that
-- is NULL when `has_length` is false.
unfoldable pub sim_bib_capture :
    Option CaptureConfig → Option (List ℕ) → ℕ → Bool → BuilderResult × Option (List ℕ) × Option ℕ
unfolding capture_service
sim_bib_capture none buffer capacity has_length = (e_argument, buffer, none)
sim_bib_capture (some config) none capacity has_length = (e_argument, none, none)
sim_bib_capture (some config) (some p) capacity false = (e_argument, some p, none)
sim_bib_capture (some config) (some p) capacity true = capture_service config p (
    builder_init (some local_builder) (some p) capacity config.header_flags config.boot_id
      config.producer_id config.created_counter)
