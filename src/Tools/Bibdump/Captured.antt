-- ===== src/Tools/Bibdump/Captured.antt =====
-- What bibdump prints of a captured block.
use atarix.Prelude.{
  ℕ, suc, sym, append_assoc, ◌+◌, ◌^◌, ◌≤◌, ◌<◌, ◌≡◌, refl, ap, ◌∙◌, true, false, some, List, [],
  ◌∷◌, ◌++◌, length, arith,
}
use atarix.Prelude.Outcome.{value, fail, fault}
use atarix.Prelude.Text.{codes}
use atarix.Bib.Builder.{ok}
use atarix.Bib.Reader.{BibView, RecordView, reader_record, reader_find_reference}
use atarix.Bib.Reader.Records.{view_at}
use atarix.Bib.Roundtrip.Header.{HeaderFits, sealed_view}
use atarix.Bib.Roundtrip.References.{Object, ObjectFits, payload_length, reference_at}
use atarix.Sim.Capture.{CaptureConfig, sim_bib_capture}
use atarix.Sim.Capture.Opened.{captured-size, captured_record, sim_bib_capture-opens}
use atarix.Sim.Capture.Steps.{header_of, service_of, memory_of, records_of, reference_tlv}
use atarix.Tools.Bibdump.{
  Line, format_line, version_line, total_length_line, boot_id_line, producer_id_line,
  created_counter_line, record_count_line, type_line, record_flags_line, payload_length_line,
  object_id_line, address_line, length_line, reference_format_line, integrity_kind_line,
  integrity_length_line, Dumped, printed, print_header_flags, type_name, is_reference_type,
  reference_lines, dump_record, dump_from, dump_opened, dump_bib,
}

-- The lines of a mandatory reference without an integrity value.
abbrev pub object_lines : ℕ → ℕ → List ℕ → Object → List Line
object_lines index type name o =
    type_line index type name
    ∷ record_flags_line index 1 true false
    ∷ payload_length_line index 40
    ∷ object_id_line index o.id
    ∷ address_line index o.address
    ∷ length_line index o.size
    ∷ reference_format_line index o.format_major o.format_minor
    ∷ integrity_kind_line index 0
    ∷ integrity_length_line index 0
    ∷ []

abbrev pub lines_with : CaptureConfig → ℕ → List Line
lines_with c total =
    format_line
      ∷ version_line
      ∷ total_length_line total
      ∷ print_header_flags c.header_flags
      ∷ boot_id_line c.boot_id
      ∷ producer_id_line c.producer_id
      ∷ created_counter_line c.created_counter
      ∷ record_count_line 2
      ∷ object_lines 0 1 (codes "service-directory-reference") (service_of c)
    ++ object_lines 1 2 (codes "memory-map-reference") (memory_of c)

abbrev pub captured_lines : CaptureConfig → List Line
captured_lines c = lines_with c 176

printed_twice : (xs ys : List Line) (m : Dumped) → printed xs (printed ys m) ≡ printed (xs ++ ys) m
printed_twice xs ys fault = refl
printed_twice xs ys (fail e) = refl
printed_twice xs ys (value d) =
    ap (λ l. value (record { lines = l; code = d.code })) (sym (append_assoc xs ys d.lines))

-- One round for a reference that is found.
found_lines :
    (view : BibView) (index at payload type : ℕ) (name : List ℕ) (o : Object) (rest : Dumped)
    → is_reference_type type ≡ true
    → type_name type ≡ name
    → ObjectFits o
    → reader_find_reference (some view) type true ≡ value (reference_at payload o)
    → dump_record view index (view_at at (reference_tlv type o)) rest
      ≡ printed (object_lines index type name o) rest
unfolding dump_record
found_lines view index at payload type name o rest is_reference named fits found =
    rw (is_reference, named, found, payload_length o fits)
      (printed_twice
        (type_line index type name
          ∷ record_flags_line index 1 true false
          ∷ payload_length_line index 40
          ∷ [])
        (reference_lines index (reference_at payload o)) rest)

loop_step :
    (view : BibView) (left index : ℕ) (r : RecordView)
    → reader_record (some view) index true ≡ value r
    → dump_from view (suc left) index ≡ dump_record view index r (dump_from view left (suc index))
unfolding dump_from
loop_step view left index r read = rw read refl

loop_end :
    (view : BibView) (index : ℕ) → dump_from view 0 index ≡ value (record { lines = []; code = 0 })
unfolding dump_from
loop_end view index = refl

-- The dump of a captured block is whole, exits with 0, and consists of the header's words and the
-- two references of the configuration, if its words fit their types and no object wraps around.
-- This includes objects with a zero address or length, which section 9 of
-- docs/boot-information-block-v1.md calls invalid for the two mandatory references.
pub dump_bib-capture :
    (c : CaptureConfig) (p q : List ℕ) (capacity n : ℕ) (local : BibView)
    → capacity ≤ length p
    → sim_bib_capture (some c) (some p) capacity true ≡ (ok, some q, some n)
    → HeaderFits (header_of c)
    → ObjectFits (service_of c)
    → ObjectFits (memory_of c)
    → c.service_address + c.service_length < 2 ^ 64
    → c.memory_address + c.memory_length < 2 ^ 64
    → dump_bib local q n ≡ value (record { lines = captured_lines c; code = 0 })
unfolding dump_bib dump_opened
dump_bib-capture c p q capacity n local fits captured words service memory service_bounded
      memory_bounded =
    let (opens, (payload0, found0), (payload1, found1)) =
      sim_bib_capture-opens c p q capacity n n local fits captured words service memory
        service_bounded memory_bounded (omega arith) in
    let (at0, read0) =
      captured_record c p q capacity n 0 (reference_tlv 1 (service_of c)) fits captured service
        memory service_bounded memory_bounded refl in
    let (at1, read1) =
      captured_record c p q capacity n 1 (reference_tlv 2 (memory_of c)) fits captured service
        memory service_bounded memory_bounded refl in
    let view = sealed_view (header_of c) (records_of c) q n in
    let second =
      found_lines view 1 at1 payload1 2 (codes "memory-map-reference") (memory_of c)
        (dump_from view 0 2) (unfold is_reference_type in refl) (unfold type_name in refl) memory
        found1 in
    let first =
      found_lines view 0 at0 payload0 1 (codes "service-directory-reference") (service_of c)
        (dump_from view 1 1) (unfold is_reference_type in refl) (unfold type_name in refl) service
        found0 in
    let loop : dump_from view 2 0
        ≡ value (record {
          lines =
              object_lines 0 1 (codes "service-directory-reference") (service_of c)
              ++ object_lines 1 2 (codes "memory-map-reference") (memory_of c);
          code = 0;
        }) =
      loop_step view 1 0 (view_at at0 (reference_tlv 1 (service_of c))) read0
      ∙ first
      ∙ ap (printed (object_lines 0 1 (codes "service-directory-reference") (service_of c))) (
          loop_step view 0 1 (view_at at1 (reference_tlv 2 (memory_of c))) read1
          ∙ second
          ∙ ap (printed (object_lines 1 2 (codes "memory-map-reference") (memory_of c)))
              (loop_end view 2)) in
    rw (opens, loop)
      (ap (λ k. value (record { lines = lines_with c k; code = 0 }))
        (captured-size c p q capacity n fits captured))
