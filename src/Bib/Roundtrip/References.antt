-- ===== src/Bib/Roundtrip/References.antt =====
-- References that bib_builder.c adds, as bib_reader.c finds them.
use atarix.Prelude.{
  ℕ, suc, ◌+◌, ◌^◌, ◌≤◌, ◌<◌, ◌≡◌, refl, sym, ap, ◌∙◌, subst, Bool, true, false, Option, none, some,
  List, [], ◌∷◌, length, get_elem?, get_elem?-take, get_elem?-drop, take, drop, ◌==◌, arith,
  if◌then◌else◌,
}
use atarix.Prelude.Outcome.{value, or_fault, byte_at, read_le32, read_le64}
use atarix.Prelude.Outcome.Loads.{join32, word64}
use atarix.Crc.Detect.{AreBytes}
use atarix.Bib.Format.{BibError, tlv_header_size, reference_fixed_size}
use atarix.Bib.Bytes.{write_bytes, write_le32, write_le64}
use atarix.Bib.Layout.{Tlv, HeaderWords}
use atarix.Bib.Builder
use atarix.Bib.Builder.{BibBuilder, builder_seal, reference_payload}
use atarix.Bib.Builder.Records.{Building}
use atarix.Bib.Reader.{
  BibView, RecordView, ReferenceView, read_reference, reader_record, find_from,
  reader_find_reference,
}
use atarix.Bib.Reader.Records.{AreOpenable, view_at}
use atarix.Bib.Roundtrip.Header.{sealed_view}
use atarix.Bib.Roundtrip.Sealed.{reader_record-seal}

-- Loads from a buffer, and from the window of `m` bytes at `k` of it.
module _ (q : List ℕ) (k m : ℕ) where
  byte_in :
      (i j : ℕ) → j ≡ k + i → i < m → byte_at {E = BibError} q j ≡ byte_at (take m (drop k q)) i
  byte_in i j e h =
      rw e (ap or_fault (sym (get_elem?-take m (drop k q) i h ∙ get_elem?-drop k q i)))

  read_le32_in :
      (i j : ℕ)
      → j ≡ k + i
      → i + 4 ≤ m
      → read_le32 {E = BibError} q j ≡ read_le32 (take m (drop k q)) i
  unfolding read_le32
  read_le32_in i j e h =
      rw
        (
          byte_in i j e (omega arith),
          byte_in (i + 1) (j + 1) (omega arith) (omega arith),
          byte_in (i + 2) (j + 2) (omega arith) (omega arith),
          byte_in (i + 3) (j + 3) (omega arith) (omega arith),
        )
        refl

  read_le64_in :
      (i j : ℕ)
      → j ≡ k + i
      → i + 8 ≤ m
      → read_le64 {E = BibError} q j ≡ read_le64 (take m (drop k q)) i
  unfolding read_le64
  read_le64_in i j e h =
      rw
        (read_le32_in i j e (omega arith), read_le32_in (i + 4) (j + 4) (omega arith) (omega arith))
        refl

-- The object that a reference of the builder's is about.
pub record Object : Type 0 where
  pub id : ℕ
  pub address : ℕ
  pub size : ℕ
  pub format_major : ℕ
  pub format_minor : ℕ

abbrev pub ObjectFits : Object → Type 0
ObjectFits o =
    (o.id < 2 ^ 64)
    × (o.address < 2 ^ 64)
    × (o.size < 2 ^ 64)
    × (o.format_major < 2 ^ 32)
    × (o.format_minor < 2 ^ 32)

abbrev pub payload_of : Object → List ℕ
payload_of o = reference_payload o.id o.address o.size o.format_major o.format_minor

-- What the reader says of it, for a payload at an offset.
abbrev pub reference_at : ℕ → Object → ReferenceView
reference_at payload o = record {
  object_id = o.id;
  address = o.address;
  length = o.size;
  format_major = o.format_major;
  format_minor = o.format_minor;
  integrity_kind = 0;
  integrity = payload + reference_fixed_size;
  integrity_length = 0;
}

module _ (o : Object) (fits : ObjectFits o) where
  pub payload_length : length (payload_of o) ≡ 40
  unfolding reference_payload write_le64 write_le32 write_bytes
  payload_length = refl

  id_read : read_le64 {E = BibError} (payload_of o) 0 ≡ value o.id
  unfolding read_le64 read_le32 reference_payload write_le64 write_le32 write_bytes
  id_read = word64 o.id fits.0

  pub address_read : read_le64 {E = BibError} (payload_of o) 8 ≡ value o.address
  unfolding read_le64 read_le32 reference_payload write_le64 write_le32 write_bytes
  address_read = word64 o.address fits.1

  pub size_read : read_le64 {E = BibError} (payload_of o) 16 ≡ value o.size
  unfolding read_le64 read_le32 reference_payload write_le64 write_le32 write_bytes
  size_read = word64 o.size fits.2

  major_read : read_le32 {E = BibError} (payload_of o) 24 ≡ value o.format_major
  unfolding read_le32 reference_payload write_le64 write_le32 write_bytes
  major_read = ap value (join32 o.format_major fits.3)

  minor_read : read_le32 {E = BibError} (payload_of o) 28 ≡ value o.format_minor
  unfolding read_le32 reference_payload write_le64 write_le32 write_bytes
  minor_read = ap value (join32 o.format_minor fits.4)

  kind_read : read_le32 {E = BibError} (payload_of o) 32 ≡ value 0
  unfolding read_le32 reference_payload write_le64 write_le32 write_bytes
  kind_read = refl

  integrity_read : read_le32 {E = BibError} (payload_of o) 36 ≡ value 0
  unfolding read_le32 reference_payload write_le64 write_le32 write_bytes
  integrity_read = refl

  -- A payload of these bytes in a buffer, read as a reference.
  read_reference-payload :
      (q : List ℕ) (at : ℕ) (r : Tlv)
      → r.payload ≡ payload_of o
      → take (length r.payload) (drop (at + tlv_header_size) q) ≡ r.payload
      → read_reference q (view_at at r) ≡ value (reference_at (at + tlv_header_size) o)
  unfolding read_reference
  read_reference-payload q at r is_object placed =
      let size : length r.payload ≡ 40 = ap (λ l. length l) is_object ∙ payload_length in
      let window : take 40 (drop (at + tlv_header_size) q) ≡ payload_of o =
        ap (λ n. take n (drop (at + tlv_header_size) q)) (sym size) ∙ placed ∙ is_object in
      let in32 = λ (i : ℕ) (h : i + 4 ≤ 40).
        read_le32_in q (at + tlv_header_size) 40 i (at + tlv_header_size + i) refl h in
      let in64 = λ (i : ℕ) (h : i + 8 ≤ 40).
        read_le64_in q (at + tlv_header_size) 40 i (at + tlv_header_size + i) refl h in
      rw
        (
          size,
          in32 36 (omega arith),
          window,
          integrity_read,
          in64 0 (omega arith),
          window,
          id_read,
          in64 8 (omega arith),
          window,
          address_read,
          in64 16 (omega arith),
          window,
          size_read,
          in32 24 (omega arith),
          window,
          major_read,
          in32 28 (omega arith),
          window,
          minor_read,
          in32 32 (omega arith),
          window,
          kind_read,
        )
        refl

-- The first record of a type.
unfoldable pub first_of : ℕ → List Tlv → Option Tlv
first_of type [] = none
first_of type (r ∷ rs) = if r.type == type then some r else first_of type rs

-- Each record of a list is read by its index, from `start` on.
abbrev AreRead : BibView → List ℕ → ℕ → List Tlv → Type 0
AreRead view q start recs =
    (i : ℕ) (r : Tlv)
    → get_elem? recs i ≡ some r
    → (at : ℕ) × (reader_record (some view) (start + i) true ≡ value (view_at at r))
      × (take (length r.payload) (drop (at + tlv_header_size) q) ≡ r.payload)

find_step :
    (view : BibView) (type left index : ℕ) (r : RecordView)
    → reader_record (some view) index true ≡ value r
    → (r.type == type) ≡ false
    → find_from view type (suc left) index ≡ find_from view type left (suc index)
unfolding find_from
find_step view type left index r read other = rw (read, other) refl

find_here :
    (view : BibView) (q : List ℕ) (type left index : ℕ) (r : RecordView)
    → view.buffer ≡ some q
    → reader_record (some view) index true ≡ value r
    → (r.type == type) ≡ true
    → find_from view type (suc left) index ≡ read_reference q r
unfolding find_from
find_here view q type left index r has read same = rw (read, same, has) refl

module _ (view : BibView) (q : List ℕ) (has : view.buffer ≡ some q) (o : Object)
    (fits : ObjectFits o) where
  find_from-first :
      (type start : ℕ) (recs : List Tlv) (r : Tlv)
      → AreRead view q start recs
      → first_of type recs ≡ some r
      → r.payload ≡ payload_of o
      → (payload : ℕ) × (find_from view type (length recs) start ≡ value (reference_at payload o))
  unfolding first_of
  find_from-first type start [] r reads first is_object = absurd cc
  find_from-first type start (s ∷ rs) r reads first is_object =
      let (at, read, placed) = reads 0 s refl in
      let here : start + 0 ≡ start = omega arith in
      let read_here : reader_record (some view) start true ≡ value (view_at at s) =
        subst (λ i. reader_record (some view) i true ≡ value (view_at at s)) here read in
      go (s.type == type) refl at read_here placed first λ rest.
        find_from-first type (suc start) rs r
          (λ i t h.
            let next : suc start + i ≡ start + suc i = omega arith in
            let (at', read', placed') = reads (suc i) t h in
            (
              at',
              subst (λ j. reader_record (some view) j true ≡ value (view_at at' t)) (sym next)
                  read',
              placed',
            ))
          rest is_object
    where
      go :
          (same : Bool)
          → (s.type == type) ≡ same
          → (at : ℕ) → reader_record (some view) start true ≡ value (view_at at s)
          → take (length s.payload) (drop (at + tlv_header_size) q) ≡ s.payload
          → (if same then some s else first_of type rs) ≡ some r
          → (first_of type rs ≡ some r
              → (payload : ℕ) × (find_from view type (length rs) (suc start)
                  ≡ value (reference_at payload o)))
          → (payload : ℕ) × (find_from view type (length (s ∷ rs)) start
              ≡ value (reference_at payload o))
      go true e at read placed first' rest =
          let is_r : s ≡ r = cc in
          (
            at + tlv_header_size,
            find_here view q type (length rs) start (view_at at s) has read e
                ∙ read_reference-payload o fits q at s
                    (ap (λ (t : Tlv). t.payload) is_r ∙ is_object) placed,
          )
      go false e at read placed first' rest =
          let (payload, found) = rest first' in
          (payload, find_step view type (length rs) start (view_at at s) read e ∙ found)

-- In the view of a sealed block of openable records, the search for a type gives the object of the
-- first record of that type, if the payload of that record is the builder's for an object whose words
-- fit; there is no integrity value behind it.
pub reader_find_reference-seal :
    (h : HeaderWords) (recs : List Tlv) (b after : BibBuilder) (q : List ℕ) (n type : ℕ) (r : Tlv)
    (o : Object)
    → Building h recs b
    → builder_seal (some b) ≡ (Builder.ok, some after, some n)
    → after.buffer ≡ some q
    → AreOpenable recs
    → first_of type recs ≡ some r
    → r.payload ≡ payload_of o
    → ObjectFits o
    → (payload : ℕ) × (reader_find_reference (some (sealed_view h recs q n)) type true
        ≡ value (reference_at payload o))
unfolding reader_find_reference
reader_find_reference-seal h recs b after q n type r o building e has openable first is_object
      fits =
    find_from-first (sealed_view h recs q n) q refl o fits type 0 recs r
      (λ i t found.
        let zero_start : 0 + i ≡ i = omega arith in
        let (at, read, placed) =
          reader_record-seal h recs b after q n i t building e has openable found in
        (
          at,
          subst (λ j. reader_record (some (sealed_view h recs q n)) j true ≡ value (view_at at t))
              (sym zero_start) read,
          placed,
        ))
      first is_object

pub payload-AreBytes : (o : Object) → AreBytes (payload_of o)
unfolding reference_payload write_le64 write_le32 write_bytes
payload-AreBytes o = ground arith
