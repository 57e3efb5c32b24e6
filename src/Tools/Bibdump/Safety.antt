-- ===== src/Tools/Bibdump/Safety.antt =====
-- bibdump over arbitrary bytes.
use atarix.Prelude.{
  ℕ, zero, suc, ◌+◌, ◌≤◌, ◌<◌, ◌≡◌, ◌⊎◌, inl, inr, refl, Bool, true, false, Option, none, some,
  List, [], ◌∷◌, ◌++◌, length, arith, if◌then◌else◌, if_holds, ltb,
}
use atarix.Prelude.Word.{has_flag}
use atarix.Prelude.Outcome.{fault, fail, value, IsSafe}
use atarix.Bib.Format.{
  BibError, ok, window, bad_magic, version, header_length, total_length, bad_crc, header_reserved,
  tlv_bounds, tlv_reserved, unknown_mandatory, required_record, reference_overflow,
  reference_authority, reference_integrity, flag_sensitive, header_size,
}
use atarix.Bib.Reader.{
  Read, BibView, RecordView, ReferenceView, view_written, open_header, reader_open, reader_record,
  reader_find_reference,
}
use atarix.Bib.Reader.Safety.{reader_open-IsSafe}
use atarix.Bib.Reader.Opened.{reader_open-IsOpen, reader_record-open}
use atarix.Bib.Reader.Queries.{reader_find_reference-IsSafe}
use atarix.Tools.Bibdump.{
  Line, record_error, invalid_bib, error_name, Dump, Dumped, printed, record_lines, reference_lines,
  redacted_line, opaque_line, dump_reference, is_reference_type, dump_record, dump_from, view_lines,
  print_header_flags, dump_opened, dump_bib,
}

-- A line other than the complaint about a record.
abbrev pub NoComplaint : Line → Type 0
NoComplaint (record_error index name) = ⊥
NoComplaint line = Unit

abbrev pub AllLines : (Line → Type 0) → List Line → Type 0
AllLines P [] = Unit
AllLines P (x ∷ xs) = P x × AllLines P xs

AllLines-append :
    (P : Line → Type 0) (xs ys : List Line) → AllLines P xs → AllLines P ys → AllLines P (xs ++ ys)
AllLines-append P [] ys p q = q
AllLines-append P (x ∷ xs) ys p q = (p.0, AllLines-append P xs ys p.1 q)

-- A dump that ended: it is whole or refused, and did not complain about a record.
data Ended : Dumped → Type 0 where
  ended :
      (lines : List Line) (code : ℕ)
      → AllLines NoComplaint lines
      → (code ≡ 0) ⊎ (code ≡ 2)
      → Ended (value (record { lines = lines; code = code }))

printed-Ended :
    (lines : List Line) (m : Dumped)
    → AllLines NoComplaint lines
    → Ended m
    → Ended (printed lines m)
printed-Ended lines _ fine (ended more code p c) =
    ended (lines ++ more) code (AllLines-append NoComplaint lines more fine p) c

dump_reference-Ended :
    (index : ℕ) (m : Read ReferenceView) (rest : Dumped)
    → IsSafe m
    → Ended rest
    → Ended (dump_reference index m rest)
dump_reference-Ended index fault rest safe e = absurd (safe refl)
dump_reference-Ended index (fail x) rest safe e = ended _ 2 (tt, tt) (inr refl)
dump_reference-Ended index (value reference) rest safe e =
    printed-Ended (reference_lines index reference) rest (tt, (tt, (tt, (tt, (tt, (tt, tt)))))) e

dump_record-Ended :
    (view : BibView) (index : ℕ) (r : RecordView) (rest : Dumped)
    → IsSafe (reader_find_reference (some view) r.type true)
    → Ended rest
    → Ended (dump_record view index r rest)
unfolding dump_record
dump_record-Ended view index r rest safe e =
    printed-Ended (record_lines index r) _ (tt, (tt, (tt, tt)))
      (if_holds Ended (is_reference_type r.type) _ _
        (λ _.
          dump_reference-Ended index (reader_find_reference (some view) r.type true) rest safe e)
        (λ _.
          if_holds Ended (has_flag r.flags flag_sensitive) _ _
            (λ _. printed-Ended (redacted_line index ∷ []) rest (tt, tt) e)
            (λ _. printed-Ended (opaque_line index ∷ []) rest (tt, tt) e)))

-- The loop over a view whose records can be read.
dump_from-Ended :
    (view : BibView) (left index : ℕ)
    → ((type : ℕ) → IsSafe (reader_find_reference (some view) type true))
    → ((i : ℕ) → i < index + left → (r : RecordView) × (reader_record (some view) i true ≡ value r))
    → Ended (dump_from view left index)
unfolding dump_from
dump_from-Ended view zero index safe reads = ended [] 0 tt (inl refl)
dump_from-Ended view (suc left) index safe reads =
    let rest = dump_from-Ended view left (suc index) safe (λ i h. reads i (omega arith)) in
    let (r, e) = reads index (omega arith) in
    rw e (dump_record-Ended view index r (dump_from view left (suc index)) (safe r.type) rest)

refused :
    (e : BibError) → (view : Option BibView) → (e ≡ ok → ⊥) → Ended (dump_opened (value (e, view)))
unfolding dump_opened
refused ok view ne = absurd (ne refl)
refused window view ne = ended _ 2 (tt, tt) (inr refl)
refused bad_magic view ne = ended _ 2 (tt, tt) (inr refl)
refused version view ne = ended _ 2 (tt, tt) (inr refl)
refused header_length view ne = ended _ 2 (tt, tt) (inr refl)
refused total_length view ne = ended _ 2 (tt, tt) (inr refl)
refused bad_crc view ne = ended _ 2 (tt, tt) (inr refl)
refused header_reserved view ne = ended _ 2 (tt, tt) (inr refl)
refused tlv_bounds view ne = ended _ 2 (tt, tt) (inr refl)
refused tlv_reserved view ne = ended _ 2 (tt, tt) (inr refl)
refused unknown_mandatory view ne = ended _ 2 (tt, tt) (inr refl)
refused required_record view ne = ended _ 2 (tt, tt) (inr refl)
refused reference_overflow view ne = ended _ 2 (tt, tt) (inr refl)
refused reference_authority view ne = ended _ 2 (tt, tt) (inr refl)
refused reference_integrity view ne = ended _ 2 (tt, tt) (inr refl)

opened-Ended :
    (p : List ℕ) (n : ℕ) (local view : BibView)
    → n ≤ length p
    → reader_open (some local) (some p) n ≡ value (ok, some view)
    → Ended (dump_opened (value (ok, some view)))
unfolding dump_opened print_header_flags
opened-Ended p n local view fits e =
    let open_view = reader_open-IsOpen local view p n e in
    printed-Ended (view_lines view) (dump_from view view.tlv_count 0)
      (tt, (tt, (tt, (tt, (tt, (tt, (tt, (tt, tt))))))))
      (dump_from-Ended view view.tlv_count 0
        (reader_find_reference-IsSafe view p open_view.buffer (omega (arith, open_view.within)))
        (λ i h. reader_record-open local view p n i e (omega arith)))

view_written_some : (m : Read BibView) (e : BibError) → view_written m ≡ value (e, none) → ⊥
view_written_some fault e h = cc
view_written_some (fail x) e h = cc
view_written_some (value view) e h = cc

reader_open-some :
    (p : List ℕ) (n : ℕ) (local : BibView) (e : BibError)
    → reader_open (some local) (some p) n ≡ value (e, none)
    → ⊥
unfolding reader_open
reader_open-some p n local e = go (ltb n header_size)
  where
    go :
        (short : Bool)
        → (if short then value (window, some local) else view_written (open_header p n))
          ≡ value (e, none)
        → ⊥
    go true h = cc
    go false h = view_written_some (open_header p n) e h

result-Ended :
    (p : List ℕ) (n : ℕ) (local : BibView) (m : Read (BibError × Option BibView))
    → n ≤ length p
    → reader_open (some local) (some p) n ≡ m
    → Ended (dump_opened m)
result-Ended p n local fault fits e = absurd (reader_open-IsSafe local p n fits e)
result-Ended p n local (fail x) fits e =
    unfold dump_opened in ended (invalid_bib x (error_name x) ∷ []) 2 (tt, tt) (inr refl)
result-Ended p n local (value (x, none)) fits e = absurd (reader_open-some p n local x e)
result-Ended p n local (value (ok, some view)) fits e = opened-Ended p n local view fits e
result-Ended p n local (value (window, some view)) fits e = refused window (some view) (λ q. cc)
result-Ended p n local (value (bad_magic, some view)) fits e =
    refused bad_magic (some view) (λ q. cc)
result-Ended p n local (value (version, some view)) fits e = refused version (some view) (λ q. cc)
result-Ended p n local (value (header_length, some view)) fits e =
    refused header_length (some view) (λ q. cc)
result-Ended p n local (value (total_length, some view)) fits e =
    refused total_length (some view) (λ q. cc)
result-Ended p n local (value (bad_crc, some view)) fits e = refused bad_crc (some view) (λ q. cc)
result-Ended p n local (value (header_reserved, some view)) fits e =
    refused header_reserved (some view) (λ q. cc)
result-Ended p n local (value (tlv_bounds, some view)) fits e =
    refused tlv_bounds (some view) (λ q. cc)
result-Ended p n local (value (tlv_reserved, some view)) fits e =
    refused tlv_reserved (some view) (λ q. cc)
result-Ended p n local (value (unknown_mandatory, some view)) fits e =
    refused unknown_mandatory (some view) (λ q. cc)
result-Ended p n local (value (required_record, some view)) fits e =
    refused required_record (some view) (λ q. cc)
result-Ended p n local (value (reference_overflow, some view)) fits e =
    refused reference_overflow (some view) (λ q. cc)
result-Ended p n local (value (reference_authority, some view)) fits e =
    refused reference_authority (some view) (λ q. cc)
result-Ended p n local (value (reference_integrity, some view)) fits e =
    refused reference_integrity (some view) (λ q. cc)

-- Whatever bytes a file has, the dump ends, reads nothing outside of the buffer, and returns 0 or 2; it
-- never complains about a record that cannot be read.
pub dump_bib-total :
    (p : List ℕ) (n : ℕ) (local : BibView)
    → n ≤ length p
    → (d : Dump) × (dump_bib local p n ≡ value d)
      × AllLines NoComplaint d.lines
      × ((d.code ≡ 0) ⊎ (d.code ≡ 2))
unfolding dump_bib
dump_bib-total p n local fits =
    out (result-Ended p n local (reader_open (some local) (some p) n) fits refl)
  where
    out :
        {m : Dumped}
        → Ended m
        → (d : Dump) × (m ≡ value d) × AllLines NoComplaint d.lines × ((d.code ≡ 0) ⊎ (d.code ≡ 2))
    out (ended lines code p c) = (record { lines = lines; code = code }, refl, p, c)
