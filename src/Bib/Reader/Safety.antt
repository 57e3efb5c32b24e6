-- ===== src/Bib/Reader/Safety.antt =====
-- No read of the reader leaves the buffer, whatever the bytes are.
use atarix.Prelude.{
  ℕ, zero, suc, ◌+◌, ◌-◌, ◌≤◌, ◌^◌, ◌≡◌, refl, subst, true, false, not, ◌&&◌, ◌||◌, some, List, [],
  ◌∷◌, arith, length, ltb, leb, ◌==◌,
}
use atarix.Prelude.Word.{u32, has_flag}
use atarix.Prelude.Outcome.{
  fault, fail, value, byte_at-value, read_le16, read_le32, read_le16-value, read_le32-value,
  read_le64-value, IsSafe, IsSafe-value, IsSafe-bind, IsSafe-guard, IsSafe-read, IsSafe-if,
  >>=-eq-value, guard-eq-value,
}
use atarix.Bib.Format
use atarix.Bib.Format.{
  version_major_v1, BibError, tlv_header_size, header_size, recommended_max_size,
  header_flags_are_known, service_directory_reference, memory_map_reference, flag_mandatory,
  reference_fixed_size, length_is_aligned, tlv_flags_are_known,
}
use atarix.Bib.Reader.{
  known_type, Read, BibView, RecordView, byte_zeroed, crc32c_zeroed_from, crc32c_with_zeroed_field,
  magic_from, magic_is_valid, record_at_offset, check_reference, check_record, scan, open_records,
  read_view, open_total, open_header, view_written, reader_open,
}

-- What a record that was read satisfies: it lies inside the block, and its payload inside the record.
pub record InBlock (total offset : ℕ) (r : RecordView) : Type 0 where
  pub payload : r.payload ≡ offset + tlv_header_size
  pub aligned : length_is_aligned r.serialized_length ≡ true
  pub header : tlv_header_size ≤ r.serialized_length
  pub inside : offset + r.serialized_length ≤ total
  pub contents : tlv_header_size + r.payload_length ≤ r.serialized_length
  pub flags : tlv_flags_are_known r.flags ≡ true

bounds_of_test :
    (total offset : ℕ)
    → (ltb total offset || ltb (total - offset) tlv_header_size) ≡ false
    → offset + tlv_header_size ≤ total
bounds_of_test total offset h = ground arith

tests-InBlock :
    (total offset len payload_length flags reserved type : ℕ)
    → (ltb total offset || ltb (total - offset) tlv_header_size) ≡ false
    → (ltb len tlv_header_size
        || not (length_is_aligned len)
        || ltb (total - offset) len
        || ltb (len - tlv_header_size) payload_length)
      ≡ false
    → (not (tlv_flags_are_known flags) || not (reserved == 0)) ≡ false
    → InBlock total offset (record {
      type = type;
      flags = flags;
      payload = offset + tlv_header_size;
      payload_length = payload_length;
      serialized_length = len;
    })
tests-InBlock total offset len payload_length flags reserved type t0 t3 t6 = record {
  payload = refl;
  aligned = ground arith;
  header = ground arith;
  inside = ground arith;
  contents = ground arith;
  flags = ground arith;
}

-- The fields of a record that was read.
pub record_at_offset-InBlock :
    (buffer : List ℕ) (total offset : ℕ) (r : RecordView)
    → record_at_offset buffer total offset ≡ value r
    → InBlock total offset r
unfolding record_at_offset
record_at_offset-InBlock buffer total offset r h =
    let (t0, h0) =
      guard-eq-value (ltb total offset || ltb (total - offset) tlv_header_size) _ _ h in
    let (len, e1, h1) = >>=-eq-value (read_le32 buffer (offset + 4)) _ h0 in
    let (payload_length, e2, h2) = >>=-eq-value (read_le32 buffer (offset + 8)) _ h1 in
    let (t3, h3) = guard-eq-value _ _ _ h2 in
    let (flags, e4, h4) = >>=-eq-value (read_le16 buffer (offset + 2)) _ h3 in
    let (reserved, e5, h5) = >>=-eq-value (read_le32 buffer (offset + 12)) _ h4 in
    let (t6, h6) = guard-eq-value _ _ _ h5 in
    let (type, e7, h7) = >>=-eq-value (read_le16 buffer offset) _ h6 in
    let made : record {
      type = type;
      flags = flags;
      payload = offset + tlv_header_size;
      payload_length = payload_length;
      serialized_length = len;
    }
        ≡ r =
      cc in
    subst (InBlock total offset) made
      (tests-InBlock total offset len payload_length flags reserved type t0 t3 t6)

module _ (buffer : List ℕ) (total : ℕ) (fits : total ≤ length buffer) where
  pub record_at_offset-IsSafe : (offset : ℕ) → IsSafe (record_at_offset buffer total offset)
  unfolding record_at_offset
  record_at_offset-IsSafe offset =
      IsSafe-guard (ltb total offset || ltb (total - offset) tlv_header_size) _ _ λ test.
        let within = bounds_of_test total offset test in
        IsSafe-read (read_le32-value buffer (offset + 4) (omega arith)) λ len.
          IsSafe-read (read_le32-value buffer (offset + 8) (omega arith)) λ payload_length.
            IsSafe-guard
              (ltb len tlv_header_size
                || not (length_is_aligned len)
                || ltb (total - offset) len
                || ltb (len - tlv_header_size) payload_length)
              _ _
              λ _. IsSafe-read (read_le16-value buffer (offset + 2) (omega arith)) λ flags.
                IsSafe-read (read_le32-value buffer (offset + 12) (omega arith)) λ reserved.
                  IsSafe-guard (not (tlv_flags_are_known flags) || not (reserved == 0)) _ _ λ _.
                    IsSafe-read (read_le16-value buffer offset (omega arith))
                      λ type. IsSafe-value (_, refl)

  pub check_record-IsSafe :
      (offset : ℕ) (r : RecordView) → InBlock total offset r → IsSafe (check_record buffer r)
  unfolding check_record check_reference
  check_record-IsSafe offset r b =
      IsSafe-guard (not (known_type r.type) && has_flag r.flags flag_mandatory) _ _ λ _.
        IsSafe-if (r.type == service_directory_reference || r.type == memory_map_reference) _ _
          (λ _. IsSafe-guard (ltb r.payload_length reference_fixed_size) _ _ λ long.
            let enough : reference_fixed_size ≤ r.payload_length = ground arith in
            IsSafe-read (read_le64-value buffer (r.payload + 8) (omega arith)) λ address.
              IsSafe-read (read_le64-value buffer (r.payload + 16) (omega arith)) λ len.
                IsSafe-guard (ltb (2 ^ 64 - 1 - len) address) _ _ λ _. IsSafe-value (_, refl))
          (λ _. IsSafe-value (_, refl))

  pub scan-IsSafe :
      (left offset services memories : ℕ) → IsSafe (scan buffer total left offset services memories)
  unfolding scan
  scan-IsSafe zero offset services memories = IsSafe-value (_, refl)
  scan-IsSafe (suc left) offset services memories =
      IsSafe-bind (record_at_offset buffer total offset) _ (record_at_offset-IsSafe offset) λ r e.
        IsSafe-bind (check_record buffer r) _
          (check_record-IsSafe offset r (record_at_offset-InBlock buffer total offset r e))
          λ _ _. scan-IsSafe left (u32 (offset + r.serialized_length)) _ _

  crc32c_zeroed_from-IsSafe :
      (left i crc : ℕ) → i + left ≤ length buffer → IsSafe (crc32c_zeroed_from buffer left i crc)
  unfolding crc32c_zeroed_from
  crc32c_zeroed_from-IsSafe zero i crc h = IsSafe-value (_, refl)
  crc32c_zeroed_from-IsSafe (suc left) i crc h =
      IsSafe-bind (byte_zeroed buffer i) _
        (IsSafe-if (leb 20 i && ltb i 24) _ _ (λ _. IsSafe-value (_, refl))
          (λ _. IsSafe-value (byte_at-value buffer i (omega arith))))
        λ byte _. crc32c_zeroed_from-IsSafe left (suc i) _ (omega arith)

  crc32c_with_zeroed_field-IsSafe : IsSafe (crc32c_with_zeroed_field buffer total)
  unfolding crc32c_with_zeroed_field
  crc32c_with_zeroed_field-IsSafe =
      IsSafe-bind (crc32c_zeroed_from buffer total 0 0xFFFFFFFF) _
        (crc32c_zeroed_from-IsSafe total 0 0xFFFFFFFF (omega arith)) λ crc _. IsSafe-value (_, refl)

open_records-IsSafe :
    (buffer : List ℕ) (view : BibView)
    → view.total_length ≤ length buffer
    → IsSafe (open_records buffer view)
unfolding open_records
open_records-IsSafe buffer view fits =
    IsSafe-guard
      (ltb view.tlv_offset header_size
        || ltb view.total_length view.tlv_offset
        || not (length_is_aligned view.tlv_offset))
      _ _
      λ _.
        IsSafe-bind (scan buffer view.total_length view.tlv_count view.tlv_offset 0 0) _
          (scan-IsSafe buffer view.total_length fits view.tlv_count view.tlv_offset 0 0)
          λ (offset, services, memories) _.
            IsSafe-guard (not (offset == view.total_length)) _ _ λ _.
              IsSafe-guard (not (services == 1) || not (memories == 1)) _ _
                λ _. IsSafe-value (_, refl)

magic_from-IsSafe :
    (p : List ℕ) (i : ℕ) (ms : List ℕ) → i + length ms ≤ length p → IsSafe (magic_from p i ms)
magic_from-IsSafe p i [] h = IsSafe-value (_, refl)
magic_from-IsSafe p i (m ∷ ms) h = IsSafe-read (byte_at-value p i (omega arith)) λ b.
    IsSafe-if (b == m) _ _ (λ _. magic_from-IsSafe p (suc i) ms (omega arith))
      (λ _. IsSafe-value (_, refl))

magic_is_valid-IsSafe : (p : List ℕ) → 8 ≤ length p → IsSafe (magic_is_valid p)
unfolding magic_is_valid
magic_is_valid-IsSafe p h = magic_from-IsSafe p 0 Format.magic h

module _ (p : List ℕ) (window_length : ℕ) (fits : window_length ≤ length p) where
  read_view_value :
      (total : ℕ)
      → header_size ≤ window_length
      → (view : BibView) × (read_view p total ≡ value view) × (view.total_length ≡ total)
  unfolding read_view
  read_view_value total h =
      let (tlv_offset, e1) = read_le32-value {E = BibError} p 48 (omega arith) in
      let (tlv_count, e2) = read_le32-value {E = BibError} p 52 (omega arith) in
      let (flags, e3) = read_le16-value {E = BibError} p 14 (omega arith) in
      let (boot_id, e4) = read_le64-value {E = BibError} p 24 (omega arith) in
      let (producer_id, e5) = read_le64-value {E = BibError} p 32 (omega arith) in
      let (created_counter, e6) = read_le64-value {E = BibError} p 40 (omega arith) in
      let view : BibView = record {
        buffer = some p;
        total_length = total;
        tlv_offset = tlv_offset;
        tlv_count = tlv_count;
        flags = flags;
        boot_id = boot_id;
        producer_id = producer_id;
        created_counter = created_counter;
      } in
      (view, rw (e1, e2, e3, e4, e5, e6), refl)

  open_total-IsSafe :
      (total : ℕ) → header_size ≤ window_length → IsSafe (open_total p window_length total)
  unfolding open_total
  open_total-IsSafe total h =
      IsSafe-guard
        (ltb total header_size
          || ltb window_length total
          || ltb recommended_max_size total
          || not (length_is_aligned total))
        _ _
        λ test.
          let within : total ≤ window_length = ground arith in
          IsSafe-read (read_le32-value p 20 (omega arith)) λ expected.
            IsSafe-bind (crc32c_with_zeroed_field p total) _
              (crc32c_with_zeroed_field-IsSafe p total (omega arith))
              λ actual _. IsSafe-guard (not (expected == actual)) _ _ λ _.
                IsSafe-read (read_le16-value p 14 (omega arith)) λ flags.
                  IsSafe-read (read_le64-value p 56 (omega arith)) λ reserved.
                    IsSafe-guard (not (header_flags_are_known flags) || not (reserved == 0)) _ _
                      λ _.
                        let (view, e, total_is) = read_view_value total h in
                        IsSafe-bind (read_view p total) _ (IsSafe-value (view, e)) λ v ev.
                          open_records-IsSafe p v
                            (let same : v.total_length ≡ total = cc in omega arith)

  open_header-IsSafe : header_size ≤ window_length → IsSafe (open_header p window_length)
  unfolding open_header
  open_header-IsSafe h =
      IsSafe-bind (magic_is_valid p) _ (magic_is_valid-IsSafe p (omega arith)) λ valid _.
        IsSafe-guard (not valid) _ _ λ _. IsSafe-read (read_le16-value p 8 (omega arith)) λ major.
          IsSafe-guard (not (major == version_major_v1)) _ _ λ _.
            IsSafe-read (read_le16-value p 12 (omega arith)) λ size.
              IsSafe-guard (not (size == header_size)) _ _ λ _.
                IsSafe-read (read_le32-value p 16 (omega arith)) λ total. open_total-IsSafe total h

view_written-IsSafe : (m : Read BibView) → IsSafe m → IsSafe (view_written m)
view_written-IsSafe fault h = absurd (h refl)
view_written-IsSafe (fail e) h = λ p. cc
view_written-IsSafe (value view) h = λ p. cc

-- The reader opens whatever bytes it is given without a read outside of them: when the buffer has at
-- least as many bytes as the caller says, opening it never faults.
pub reader_open-IsSafe :
    (old : BibView) (p : List ℕ) (window_length : ℕ)
    → window_length ≤ length p
    → IsSafe (reader_open (some old) (some p) window_length)
unfolding reader_open
reader_open-IsSafe old p window_length fits =
    IsSafe-if (ltb window_length header_size) _ _ (λ _. IsSafe-value (_, refl))
      λ test.
        view_written-IsSafe (open_header p window_length)
          (open_header-IsSafe p window_length fits (ground arith))
