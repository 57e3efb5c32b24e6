-- ===== src/Sim/Capture/Laws.antt =====
-- When a capture succeeds.
use atarix.Prelude.{ℕ, ◌≤◌, ◌≡◌, ◌↔◌, true, some, List, arith}
use atarix.Bib.Format.{header_flags_are_known, tlv_flags_are_known}
use atarix.Bib.Builder.{
  ok, u32_max, builder_init, builder_add_tlv, builder_add_reference, builder_seal, add_tlv,
  append_record, align8_u32,
}
use atarix.Sim.Capture.{
  CaptureConfig, capture_size, capture_sealed, capture_memory, capture_service, sim_bib_capture,
}

-- A capture succeeds exactly for known header flags and a capacity from 176 bytes to the largest 32-bit
-- number, and its serialized length is then 176.
pub sim_bib_capture_iff :
    (config : CaptureConfig) (p : List ℕ) (capacity : ℕ)
    → let (result, after, serialized_length) =
        sim_bib_capture (some config) (some p) capacity true in
      ((result ≡ ok) ↔ (
        (header_flags_are_known config.header_flags ≡ true)
        × (capture_size ≤ capacity)
        × (capacity ≤ u32_max)))
      × ((result ≡ ok) ↔ (serialized_length ≡ some capture_size))
unfolding sim_bib_capture capture_service capture_memory capture_sealed builder_init
    builder_add_reference builder_add_tlv add_tlv append_record builder_seal align8_u32
    tlv_flags_are_known
sim_bib_capture_iff config p capacity = ground arith
