-- ===== src/Bib/Reader/Queries.antt =====
-- What is asked of a view reads nothing outside of the block.
use atarix.Prelude.{
  ℕ, zero, suc, ◌+◌, ◌-◌, ◌≤◌, ◌≡◌, refl, some, List, length, ltb, leb, ◌==◌, arith, true,
}
use atarix.Prelude.Word.{u32}
use atarix.Prelude.Outcome.{
  value, IsSafe, IsSafe-value, IsSafe-bind, IsSafe-if, IsSafe-guard, IsSafe-read, read_le32-value,
  read_le64-value, >>=-eq-value, guard-eq-value,
}
use atarix.Bib.Format.{reference_fixed_size}
use atarix.Bib.Reader.{
  BibView, RecordView, record_at_offset, skip_records, reader_record, read_reference, find_from,
  reader_find_reference,
}
use atarix.Bib.Reader.Safety.{InBlock, record_at_offset-InBlock, record_at_offset-IsSafe}

module _ (p : List ℕ) (total : ℕ) (fits : total ≤ length p) where
  skip_records-IsSafe : (left offset : ℕ) → IsSafe (skip_records p total left offset)
  unfolding skip_records
  skip_records-IsSafe zero offset = IsSafe-value (_, refl)
  skip_records-IsSafe (suc left) offset =
      IsSafe-bind (record_at_offset p total offset) _ (record_at_offset-IsSafe p total fits offset)
        λ r e. skip_records-IsSafe left (u32 (offset + r.serialized_length))

  read_reference-IsSafe :
      (offset : ℕ) (r : RecordView) → InBlock total offset r → IsSafe (read_reference p r)
  unfolding read_reference
  read_reference-IsSafe offset r b =
      IsSafe-guard (ltb r.payload_length reference_fixed_size) _ _ λ test.
        let long : reference_fixed_size ≤ r.payload_length = ground arith in
        let inside : r.payload + reference_fixed_size ≤ length p =
          omega (arith, b.payload, b.inside, b.contents, b.header) in
        IsSafe-read (read_le32-value p (r.payload + 36) (omega arith)) λ integrity_length.
          IsSafe-guard (ltb (r.payload_length - reference_fixed_size) integrity_length) _ _ λ _.
            IsSafe-read (read_le64-value p (r.payload + 0) (omega arith)) λ a.
              IsSafe-read (read_le64-value p (r.payload + 8) (omega arith)) λ c.
                IsSafe-read (read_le64-value p (r.payload + 16) (omega arith)) λ d.
                  IsSafe-read (read_le32-value p (r.payload + 24) (omega arith)) λ e.
                    IsSafe-read (read_le32-value p (r.payload + 28) (omega arith)) λ f.
                      IsSafe-read (read_le32-value p (r.payload + 32) (omega arith))
                        λ g. IsSafe-value (_, refl)

module _ (view : BibView) (p : List ℕ) (has : view.buffer ≡ some p)
    (fits : view.total_length ≤ length p) where
  reader_record-IsSafe : (index : ℕ) → IsSafe (reader_record (some view) index true)
  unfolding reader_record
  reader_record-IsSafe index = rw has (
      IsSafe-guard (leb view.tlv_count index) _ _ λ _.
        IsSafe-bind (skip_records p view.total_length index view.tlv_offset) _
          (skip_records-IsSafe p view.total_length fits index view.tlv_offset)
          λ offset e. record_at_offset-IsSafe p view.total_length fits offset)

  reader_record-InBlock :
      (index : ℕ) (r : RecordView)
      → reader_record (some view) index true ≡ value r
      → (offset : ℕ) × InBlock view.total_length offset r
  unfolding reader_record
  reader_record-InBlock index r = rw has λ h.
      let (t0, h0) = guard-eq-value (leb view.tlv_count index) _ _ h in
      let (offset, e1, h1) =
        >>=-eq-value (skip_records p view.total_length index view.tlv_offset) _ h0 in
      (offset, record_at_offset-InBlock p view.total_length offset r h1)

  find_from-IsSafe : (type left index : ℕ) → IsSafe (find_from view type left index)
  unfolding find_from
  find_from-IsSafe type zero index = λ h. cc
  find_from-IsSafe type (suc left) index =
      IsSafe-bind (reader_record (some view) index true) _ (reader_record-IsSafe index) λ r e.
        IsSafe-if (r.type == type) _ _
          (λ _.
            let (offset, b) = reader_record-InBlock index r e in
            rw has (read_reference-IsSafe p view.total_length fits offset r b))
          (λ _. find_from-IsSafe type left (suc index))

  -- The search for a reference never reads outside of the block, whatever its records are.
  pub reader_find_reference-IsSafe :
      (type : ℕ) → IsSafe (reader_find_reference (some view) type true)
  unfolding reader_find_reference
  reader_find_reference-IsSafe type = find_from-IsSafe type view.tlv_count 0
