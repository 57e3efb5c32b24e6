-- ===== src/Sim/Capture/Opened.antt =====
-- A captured block, opened by src/bib/bib_reader.c.
use atarix.Prelude.{
  ℕ, ◌+◌, ◌^◌, ◌≤◌, ◌<◌, ◌≡◌, refl, sym, ap, ◌∙◌, true, some, List, [], ◌∷◌, length, get_elem?,
  arith,
}
use atarix.Prelude.Outcome.{value, value_injective}
use atarix.Bib.Format.{
  BibError, flag_mandatory, service_directory_reference, memory_map_reference, tlv_flags_are_known,
  reference_fixed_size,
}
use atarix.Bib.Format
use atarix.Bib.Layout.{Tlv, encode_all, count_type}
use atarix.Bib.Bytes.{write_bytes, write_le32, write_le64}
use atarix.Bib.Builder.{ok, reference_payload}
use atarix.Bib.Builder.Records.{seal-IsImage}
use atarix.Bib.Reader.{BibView, known_type, reader_open, reader_record, reader_find_reference}
use atarix.Bib.Reader.Records.{AreOpenable, IsOpenable, view_at}
use atarix.Bib.Roundtrip.Header.{HeaderFits, sealed_view}
use atarix.Bib.Roundtrip.Open.{opened}
use atarix.Bib.Roundtrip.Sealed.{reader_open-seal, reader_record-seal}
use atarix.Bib.Roundtrip.References.{
  Object, ObjectFits, reference_at, first_of, reader_find_reference-seal, payload_length,
  address_read, size_read, payload-AreBytes,
}
use atarix.Sim.Capture.{CaptureConfig, sim_bib_capture}
use atarix.Sim.Capture.Steps.{
  header_of, service_of, memory_of, reference_tlv, records_of, captured-Steps,
}

pub reference-IsOpenable :
    (type : ℕ) (o : Object)
    → type < 2 ^ 16
    → known_type type ≡ true
    → ObjectFits o
    → o.address + o.size < 2 ^ 64
    → IsOpenable (reference_tlv type o)
unfolding tlv_flags_are_known
reference-IsOpenable type o small known fits bounded = (
  (small, omega arith, refl, payload-AreBytes o),
  rw known refl,
  λ required. (
    omega (arith, payload_length o fits),
    λ address size ea es. omega (
      arith,
      value_injective (sym ea ∙ address_read o fits),
      value_injective (sym es ∙ size_read o fits),
      bounded,
    ),
  ),
)

records-size : (c : CaptureConfig) → length (encode_all (records_of c)) ≡ 112
unfolding encode_all reference_payload write_le64 write_le32 write_bytes
records-size c = refl

opened-captured :
    (c : CaptureConfig) (q : List ℕ) (n : ℕ)
    → n ≡ 176
    → opened (header_of c) (records_of c) q n
      ≡ (Format.ok, some (sealed_view (header_of c) (records_of c) q n))
unfolding count_type
opened-captured c q n e = rw e refl

service_first :
    (c : CaptureConfig)
    → first_of service_directory_reference (records_of c)
      ≡ some (reference_tlv service_directory_reference (service_of c))
unfolding first_of
service_first c = refl

memory_first :
    (c : CaptureConfig)
    → first_of memory_map_reference (records_of c)
      ≡ some (reference_tlv memory_map_reference (memory_of c))
unfolding first_of
memory_first c = refl

two_openable : (r s : Tlv) → IsOpenable r → IsOpenable s → AreOpenable (r ∷ s ∷ [])
two_openable r s p q = (p, (q, tt))

records_openable :
    (c : CaptureConfig)
    → ObjectFits (service_of c)
    → ObjectFits (memory_of c)
    → c.service_address + c.service_length < 2 ^ 64
    → c.memory_address + c.memory_length < 2 ^ 64
    → AreOpenable (records_of c)
unfolding known_type
records_openable c service memory service_bounded memory_bounded =
    two_openable (reference_tlv service_directory_reference (service_of c))
      (reference_tlv memory_map_reference (memory_of c))
      (reference-IsOpenable service_directory_reference (service_of c) (omega arith) refl service
        service_bounded)
      (reference-IsOpenable memory_map_reference (memory_of c) (omega arith) refl memory
        memory_bounded)

pub captured-size :
    (c : CaptureConfig) (p q : List ℕ) (capacity n : ℕ)
    → capacity ≤ length p
    → sim_bib_capture (some c) (some p) capacity true ≡ (ok, some q, some n)
    → n ≡ 176
captured-size c p q capacity n fits captured =
    let s = captured-Steps c p q capacity n fits captured in
    let image = seal-IsImage q n s.building s.sealed s.buffer in
    omega (arith, image.size, records-size c)

-- The records of a captured block are those of the configuration.
pub captured_record :
    (c : CaptureConfig) (p q : List ℕ) (capacity n index : ℕ) (r : Tlv)
    → capacity ≤ length p
    → sim_bib_capture (some c) (some p) capacity true ≡ (ok, some q, some n)
    → ObjectFits (service_of c)
    → ObjectFits (memory_of c)
    → c.service_address + c.service_length < 2 ^ 64
    → c.memory_address + c.memory_length < 2 ^ 64
    → get_elem? (records_of c) index ≡ some r
    → (at : ℕ) × (reader_record (some (sealed_view (header_of c) (records_of c) q n)) index true
        ≡ value (view_at at r))
captured_record c p q capacity n index r fits captured service memory service_bounded memory_bounded
      found =
    let s = captured-Steps c p q capacity n fits captured in
    let (at, read, payload) =
      reader_record-seal (header_of c) (records_of c) s.b s.after q n index r s.building s.sealed
        s.buffer (records_openable c service memory service_bounded memory_bounded) found in
    (at, read)

-- A block that was captured into a buffer of the capacity is opened by the reader with the words
-- of the configuration, and the searches for the two references give the objects of the
-- configuration, if the words of the configuration fit their types and neither object's address
-- and length add up to 2 ^ 64 or more. This includes objects with a zero address or length, which
-- section 9 of docs/boot-information-block-v1.md calls invalid for the two mandatory references.
pub sim_bib_capture-opens :
    (c : CaptureConfig) (p q : List ℕ) (capacity n window_length : ℕ) (old : BibView)
    → capacity ≤ length p
    → sim_bib_capture (some c) (some p) capacity true ≡ (ok, some q, some n)
    → HeaderFits (header_of c)
    → ObjectFits (service_of c)
    → ObjectFits (memory_of c)
    → c.service_address + c.service_length < 2 ^ 64
    → c.memory_address + c.memory_length < 2 ^ 64
    → n ≤ window_length
    → (reader_open (some old) (some q) window_length
        ≡ value (Format.ok, some (sealed_view (header_of c) (records_of c) q n)))
      × ((payload : ℕ) × (reader_find_reference
              (some (sealed_view (header_of c) (records_of c) q n))
              service_directory_reference
              true
            ≡ value (reference_at payload (service_of c))))
      × ((payload : ℕ) × (reader_find_reference
              (some (sealed_view (header_of c) (records_of c) q n))
              memory_map_reference
              true
            ≡ value (reference_at payload (memory_of c))))
sim_bib_capture-opens c p q capacity n window_length old fits_buffer captured fits service memory
      service_bounded memory_bounded fits_window =
    let s = captured-Steps c p q capacity n fits_buffer captured in
    let openable = records_openable c service memory service_bounded memory_bounded in
    let image = seal-IsImage q n s.building s.sealed s.buffer in
    let size : n ≡ 176 = omega (arith, image.size, records-size c) in
    (
      reader_open-seal (header_of c) (records_of c) s.b s.after q n window_length old s.building
            s.sealed s.buffer fits openable fits_window
          ∙ ap value (opened-captured c q n size),
      reader_find_reference-seal (header_of c) (records_of c) s.b s.after q n
          service_directory_reference (reference_tlv service_directory_reference (service_of c))
          (service_of c) s.building s.sealed s.buffer openable (service_first c) refl service,
      reader_find_reference-seal (header_of c) (records_of c) s.b s.after q n memory_map_reference
          (reference_tlv memory_map_reference (memory_of c)) (memory_of c) s.building s.sealed
          s.buffer openable (memory_first c) refl memory,
    )
