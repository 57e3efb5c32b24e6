-- ===== src/Tests/Capture.antt =====
-- A block that is captured, opened and asked for its references: the code of the builder and that of the
-- reader run against one another.
use atarix.Prelude.{
  ℕ, ◌≡◌, ◌≤◌, ◌↔◌, ◌⊎◌, refl, true, false, Option, none, some, List, [], ◌∷◌, replicate, arith,
}
use atarix.Prelude.Outcome.{value, read_le16, read_le32, read_le64}
use atarix.Bib.Format.{BibError, length_is_aligned, header_flags_are_known, tlv_flags_are_known}
use atarix.Bib.Bytes.{write_bytes, write_le16, write_le32, write_le64}
use atarix.Bib.Builder
use atarix.Bib.Builder.{
  BuilderResult, u32_max, BibBuilder, crc32c_update, crc32c, align8_u32, write_header, builder_init,
  write_record, append_record, add_tlv, builder_add_tlv, reference_payload, builder_add_reference,
  seal_buffer, builder_seal,
}
use atarix.Bib.Reader
use atarix.Bib.Reader.{
  BibView, RecordView, zero_view, crc32c_zeroed_from, crc32c_with_zeroed_field, known_type,
  magic_is_valid, record_at_offset, check_reference, check_record, scan, open_records, read_view,
  open_total, open_header, reader_open, skip_records, reader_record, read_reference, find_from,
  reader_find_reference,
}
use atarix.Bib.Builder.Laws.{IsBuilder, Reach, init, Reach-IsBuilder}
use atarix.Bib.Reader.Opened.{reader_record-open}
use atarix.Bib.Roundtrip.Header.{sealed_view}
use atarix.Bib.Roundtrip.References.{reference_at}
use atarix.Sim.Capture.Laws.{sim_bib_capture_iff}
use atarix.Tools.Bibdump.{Dump, dump_bib}
use atarix.Tools.Bibdump.Captured.{captured_lines, dump_bib-capture}
use atarix.Tools.Bibdump.Safety.{AllLines, NoComplaint, dump_bib-total}
use atarix.Sim.Capture.Opened.{sim_bib_capture-opens}
use atarix.Sim.Capture.Steps.{header_of, service_of, memory_of, records_of}
use atarix.Sim.Capture.{
  local_builder, capture_size, CaptureConfig, capture_sealed, capture_memory, capture_service,
  sim_bib_capture,
}

abbrev config : CaptureConfig
config = record {
  header_flags = 4;
  boot_id = 11;
  producer_id = 12;
  created_counter = 13;
  service_object_id = 21;
  service_address = 0x10000;
  service_length = 0x200;
  memory_object_id = 31;
  memory_address = 0x20000;
  memory_length = 0x400;
}

abbrev bytes_of : BuilderResult × Option (List ℕ) × Option ℕ → List ℕ
bytes_of (result, none, n) = []
bytes_of (result, some p, n) = p

abbrev captured : List ℕ
captured = bytes_of (sim_bib_capture (some config) (some (replicate 176 255)) 176 true)

abbrev opened : BibView
opened = record {
  buffer = some captured;
  total_length = 176;
  tlv_offset = 64;
  tlv_count = 2;
  flags = 4;
  boot_id = 11;
  producer_id = 12;
  created_counter = 13;
}

captured_opens : reader_open (some zero_view) (some captured) 176 ≡ value (BibError.ok, some opened)
unfolding sim_bib_capture capture_service capture_memory capture_sealed builder_init
    builder_add_reference builder_add_tlv add_tlv append_record builder_seal align8_u32
    length_is_aligned header_flags_are_known tlv_flags_are_known write_header write_record
    seal_buffer reference_payload write_bytes write_le16 write_le32 write_le64 crc32c crc32c_update
    Builder.crc32c_bits reader_open open_header open_total open_records read_view scan check_record
    check_reference record_at_offset magic_is_valid known_type crc32c_with_zeroed_field
    crc32c_zeroed_from Reader.crc32c_bits read_le16 read_le32 read_le64
captured_opens = refl

reader_record-open_example : (r : RecordView) × (reader_record (some opened) 1 true ≡ value r)
reader_record-open_example =
    reader_record-open zero_view opened captured 176 1 captured_opens (omega arith)

abbrev begun : BibBuilder
begun = record {
  buffer = some (write_header (replicate 200 255) 200 4 11 12 13);
  capacity = 200;
  length = 64;
  tlv_count = 0;
  sealed = false;
}

reaches_begun : Reach begun
unfolding builder_init header_flags_are_known
reaches_begun = init local_builder (replicate 200 255) 200 4 11 12 13 (omega arith) refl

Reach-IsBuilder_example : IsBuilder begun
Reach-IsBuilder_example = Reach-IsBuilder reaches_begun

sim_bib_capture_iff_example :
    let (result, after, serialized_length) =
      sim_bib_capture (some config) (some (replicate 200 255)) 200 true in
    ((result ≡ Builder.ok)
      ↔ ((header_flags_are_known 4 ≡ true) × (capture_size ≤ 200) × (200 ≤ u32_max)))
    × ((result ≡ Builder.ok) ↔ (serialized_length ≡ some capture_size))
sim_bib_capture_iff_example = sim_bib_capture_iff config (replicate 200 255) 200

captured_well :
    sim_bib_capture (some config) (some (replicate 176 255)) 176 true
    ≡ (Builder.ok, some captured, some 176)
unfolding sim_bib_capture capture_service capture_memory capture_sealed builder_init
    builder_add_reference builder_add_tlv add_tlv append_record builder_seal align8_u32
    header_flags_are_known tlv_flags_are_known
captured_well = refl

sim_bib_capture-opens_example :
    (reader_open (some zero_view) (some captured) 176
      ≡ value (BibError.ok, some (sealed_view (header_of config) (records_of config) captured 176)))
    × ((payload : ℕ) × (reader_find_reference
            (some (sealed_view (header_of config) (records_of config) captured 176))
            1
            true
          ≡ value (reference_at payload (service_of config))))
    × ((payload : ℕ) × (reader_find_reference
            (some (sealed_view (header_of config) (records_of config) captured 176))
            2
            true
          ≡ value (reference_at payload (memory_of config))))
sim_bib_capture-opens_example =
    sim_bib_capture-opens config (replicate 176 255) captured 176 176 176 zero_view (omega arith)
      captured_well (ground arith) (ground arith) (ground arith) (omega arith) (omega arith)
      (omega arith)

dump_bib-capture_example :
    dump_bib zero_view captured 176 ≡ value (record { lines = captured_lines config; code = 0 })
dump_bib-capture_example =
    dump_bib-capture config (replicate 176 255) captured 176 176 zero_view (omega arith)
      captured_well (ground arith) (ground arith) (ground arith) (omega arith) (omega arith)

dump_bib-total_example :
    (d : Dump) × (dump_bib zero_view (9 ∷ 9 ∷ 9 ∷ []) 3 ≡ value d)
    × AllLines NoComplaint d.lines
    × ((d.code ≡ 0) ⊎ (d.code ≡ 2))
dump_bib-total_example = dump_bib-total (9 ∷ 9 ∷ 9 ∷ []) 3 zero_view (omega arith)
