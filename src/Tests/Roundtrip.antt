-- ===== src/Tests/Roundtrip.antt =====
-- A block of an unknown optional record, a service directory and a memory map, built and opened.
use atarix.Prelude.{
  ℕ, ◌+◌, ◌^◌, ◌≡◌, refl, Option, none, some, List, [], ◌∷◌, replicate, take, set, get_elem?, drop,
  arith, true,
}
use atarix.Prelude.Outcome.{value}
use atarix.Bib.Format.{BibError, header_flags_are_known, tlv_flags_are_known}
use atarix.Bib.Bytes.{write_bytes, write_le16, write_le32, write_le64}
use atarix.Bib.Layout.{Tlv, HeaderWords}
use atarix.Bib.Builder
use atarix.Bib.Builder.{
  BuilderResult, u32_max, BibBuilder, crc32c_bits, crc32c_update, crc32c, align8_u32, write_header,
  builder_init, write_record, append_record, add_tlv, builder_add_tlv, reference_payload,
  builder_add_reference, seal_buffer, builder_seal,
}
use atarix.Bib.Builder.Records.{Building, init, add}
use atarix.Bib.Reader.{zero_view, known_type, reader_open, reader_record, reader_find_reference}
use atarix.Bib.Reader.Records.{AreOpenable, IsOpenable, view_at}
use atarix.Bib.Roundtrip.Header.{sealed_view}
use atarix.Bib.Roundtrip.Sealed.{reader_open-seal, reader_record-seal}
use atarix.Bib.Roundtrip.References.{
  Object, payload_of, reference_at, first_of, reader_find_reference-seal,
}
use atarix.Bib.Roundtrip.Open.{opened}
use atarix.Bib.Roundtrip.Tampered.{reader_open-tampered}
use atarix.Sim.Capture.Opened.{reference-IsOpenable}
use atarix.Sim.Capture.{local_builder}

abbrev words : HeaderWords
words = record { flags = 5; boot_id = 11; producer_id = 2 ^ 40; created_counter = 13 }

abbrev directory : Object
directory = record { id = 21; address = 0x10000; size = 0x200; format_major = 1; format_minor = 0 }

abbrev memory_map : Object
memory_map = record {
  id = 31;
  address = 0x20000;
  size = 2 ^ 33;
  format_major = 2;
  format_minor = 3;
}

abbrev note : Tlv
note = record { type = 0x8001; flags = 0; payload = 7 ∷ 8 ∷ 9 ∷ [] }

abbrev directory_record : Tlv
directory_record = record { type = 1; flags = 1; payload = payload_of directory }

abbrev memory_record : Tlv
memory_record = record { type = 2; flags = 1; payload = payload_of memory_map }

abbrev builder_of : BuilderResult × Option BibBuilder → BibBuilder
builder_of (result, none) = local_builder
builder_of (result, some b) = b

abbrev initialised : BibBuilder
initialised =
    builder_of (builder_init (some local_builder) (some (replicate 224 255)) 224 5 11 (2 ^ 40) 13)

abbrev with_note : BibBuilder
with_note = builder_of (builder_add_tlv (some initialised) 0x8001 0 (some note.payload) 3)

abbrev with_directory : BibBuilder
with_directory =
    builder_of (builder_add_tlv (some with_note) 1 1 (some directory_record.payload) 40)

abbrev complete : BibBuilder
complete = builder_of (builder_add_tlv (some with_directory) 2 1 (some memory_record.payload) 40)

abbrev after_seal : BuilderResult × Option BibBuilder × Option ℕ → BibBuilder
after_seal (result, none, n) = local_builder
after_seal (result, some b, n) = b

abbrev sealed : BibBuilder
sealed = after_seal (builder_seal (some complete))

abbrev bytes_of : Option (List ℕ) → List ℕ
bytes_of none = []
bytes_of (some p) = p

abbrev block : List ℕ
block = bytes_of sealed.buffer

building : Building words (note ∷ directory_record ∷ memory_record ∷ []) complete
unfolding builder_init header_flags_are_known builder_add_tlv add_tlv append_record align8_u32
    tlv_flags_are_known reference_payload write_le64 write_le32 write_bytes
building =
    add memory_record
      (add directory_record
        (add note (init local_builder (replicate 224 255) 224 (omega arith) refl) refl) refl)
      refl

sealing : builder_seal (some complete) ≡ (Builder.ok, some sealed, some 200)
unfolding builder_init header_flags_are_known builder_add_tlv add_tlv append_record align8_u32
    tlv_flags_are_known builder_seal reference_payload write_le64 write_le32 write_bytes
sealing = refl

holds : sealed.buffer ≡ some block
unfolding builder_init header_flags_are_known builder_add_tlv add_tlv append_record align8_u32
    tlv_flags_are_known builder_seal reference_payload write_le64 write_le32 write_bytes
holds = refl

note-IsOpenable : IsOpenable note
unfolding known_type tlv_flags_are_known
note-IsOpenable = ((omega arith, omega arith, refl, ground arith), refl, λ required. absurd cc)

abbrev records : List Tlv
records = note ∷ directory_record ∷ memory_record ∷ []

openable : AreOpenable records
openable =
    let d : IsOpenable directory_record =
      reference-IsOpenable 1 directory (omega arith) (unfold known_type in refl) (ground arith)
        (omega arith) in
    let m : IsOpenable memory_record =
      reference-IsOpenable 2 memory_map (omega arith) (unfold known_type in refl) (ground arith)
        (omega arith) in
    (note-IsOpenable, (d, (m, tt)))

reader_open-seal_example :
    reader_open (some zero_view) (some block) 224 ≡ value (opened words records block 200)
reader_open-seal_example =
    reader_open-seal words records complete sealed block 200 224 zero_view building sealing holds
      (ground arith) openable (omega arith)

reader_record-seal_example :
    (at : ℕ) × (reader_record (some (sealed_view words records block 200)) 0 true
      ≡ value (view_at at note))
    × (take 3 (drop (at + 16) block) ≡ 7 ∷ 8 ∷ 9 ∷ [])
reader_record-seal_example =
    reader_record-seal words records complete sealed block 200 0 note building sealing holds
      openable refl

first_is_map : first_of 2 records ≡ some memory_record
unfolding first_of
first_is_map = refl

reader_find_reference-seal_example :
    (payload : ℕ) × (reader_find_reference (some (sealed_view words records block 200)) 2 true
      ≡ value (reference_at payload memory_map))
reader_find_reference-seal_example =
    reader_find_reference-seal words records complete sealed block 200 2 memory_record memory_map
      building sealing holds openable first_is_map refl (ground arith)

note_byte : get_elem? block 80 ≡ some 7
unfolding builder_init header_flags_are_known builder_add_tlv add_tlv append_record align8_u32
    tlv_flags_are_known builder_seal reference_payload write_le64 write_le32 write_bytes seal_buffer
    write_record write_le16 write_header
note_byte = refl

reader_open-tampered_example :
    reader_open (some zero_view) (some (set block 80 6)) 224
    ≡ value (BibError.bad_crc, some zero_view)
reader_open-tampered_example =
    reader_open-tampered words records complete sealed block 200 80 7 6 224 zero_view building
      sealing holds (ground arith) openable (omega arith) (omega arith) note_byte (omega arith)
      (omega arith) (omega arith)
