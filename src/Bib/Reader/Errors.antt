-- ===== src/Bib/Reader/Errors.antt =====
-- Every error return of the reader is an error: none of them is ATARIX_BIB_OK.
use atarix.Prelude.{
  ℕ, zero, suc, ◌+◌, ◌-◌, ◌^◌, ◌≢◌, not, ◌&&◌, ◌||◌, List, [], ◌∷◌, ltb, leb, ◌==◌,
}
use atarix.Prelude.Word.{u32, has_flag}
use atarix.Prelude.Outcome.{byte_at, read_le16, read_le32, read_le64}
use atarix.Prelude.Outcome.Rules.{
  Meets, gives, Any, Meets-bind, Meets-if, Meets-guard, byte_at-Meets, read_le16-Meets,
  read_le32-Meets, read_le64-Meets,
}
use atarix.Bib.Format
use atarix.Bib.Format.{
  BibError, ok, version_major_v1, header_size, tlv_header_size, reference_fixed_size,
  recommended_max_size, flag_mandatory, service_directory_reference, memory_map_reference,
  length_is_aligned, header_flags_are_known, tlv_flags_are_known,
}
use atarix.Bib.Reader.{
  Read, BibView, RecordView, byte_zeroed, crc32c_zeroed_from, crc32c_with_zeroed_field, known_type,
  magic_from, magic_is_valid, record_at_offset, check_reference, check_record, scan, open_records,
  read_view, open_total, open_header,
}

-- An error return is never ATARIX_BIB_OK.
abbrev pub NotOk : BibError → Type 0
NotOk e = e ≢ ok

abbrev pub Errs : {A : Type 0} → Read A → Type 0
Errs m = Meets Unit NotOk Any m

record_at_offset-Errs :
    (buffer : List ℕ) (total offset : ℕ) → Errs (record_at_offset buffer total offset)
unfolding record_at_offset
record_at_offset-Errs buffer total offset =
    Meets-guard (ltb total offset || ltb (total - offset) tlv_header_size) _ _ (λ p. cc)
      λ _.
        Meets-bind (read_le32 buffer (offset + 4)) _ (read_le32-Meets tt buffer (offset + 4))
          λ len _.
            Meets-bind (read_le32 buffer (offset + 8)) _ (read_le32-Meets tt buffer (offset + 8))
              λ payload_length _.
                Meets-guard
                  (ltb len tlv_header_size
                    || not (length_is_aligned len)
                    || ltb (total - offset) len
                    || ltb (len - tlv_header_size) payload_length)
                  _ _ (λ p. cc)
                  λ _.
                    Meets-bind (read_le16 buffer (offset + 2)) _
                      (read_le16-Meets tt buffer (offset + 2))
                      λ flags _.
                        Meets-bind (read_le32 buffer (offset + 12)) _
                          (read_le32-Meets tt buffer (offset + 12))
                          λ reserved _.
                            Meets-guard (not (tlv_flags_are_known flags) || not (reserved == 0)) _ _
                              (λ p. cc)
                              λ _.
                                Meets-bind (read_le16 buffer offset) _
                                  (read_le16-Meets tt buffer offset) λ type _. gives tt

check_record-Errs : (buffer : List ℕ) (r : RecordView) → Errs (check_record buffer r)
unfolding check_record check_reference
check_record-Errs buffer r =
    Meets-guard (not (known_type r.type) && has_flag r.flags flag_mandatory) _ _ (λ p. cc)
      λ _.
        Meets-if (r.type == service_directory_reference || r.type == memory_map_reference) _ _
          (λ _.
            Meets-guard (ltb r.payload_length reference_fixed_size) _ _ (λ p. cc)
              λ _.
                Meets-bind (read_le64 buffer (r.payload + 8)) _
                  (read_le64-Meets tt buffer (r.payload + 8))
                  λ address _.
                    Meets-bind (read_le64 buffer (r.payload + 16)) _
                      (read_le64-Meets tt buffer (r.payload + 16))
                      λ len _.
                        Meets-guard (ltb (2 ^ 64 - 1 - len) address) _ _ (λ p. cc) λ _. gives tt)
          λ _. gives tt

scan-Errs :
    (buffer : List ℕ) (total left offset services memories : ℕ)
    → Errs (scan buffer total left offset services memories)
unfolding scan
scan-Errs buffer total zero offset services memories = gives tt
scan-Errs buffer total (suc left) offset services memories =
    Meets-bind (record_at_offset buffer total offset) _ (record_at_offset-Errs buffer total offset)
      λ r _.
        Meets-bind (check_record buffer r) _ (check_record-Errs buffer r)
          λ _ _. scan-Errs buffer total left (u32 (offset + r.serialized_length)) _ _

open_records-Errs : (buffer : List ℕ) (view : BibView) → Errs (open_records buffer view)
unfolding open_records
open_records-Errs buffer view =
    Meets-guard
      (ltb view.tlv_offset header_size
        || ltb view.total_length view.tlv_offset
        || not (length_is_aligned view.tlv_offset))
      _ _ (λ p. cc)
      λ _.
        Meets-bind (scan buffer view.total_length view.tlv_count view.tlv_offset 0 0) _
          (scan-Errs buffer view.total_length view.tlv_count view.tlv_offset 0 0)
          λ (offset, services, memories) _.
            Meets-guard (not (offset == view.total_length)) _ _ (λ p. cc)
              λ _.
                Meets-guard (not (services == 1) || not (memories == 1)) _ _ (λ p. cc) λ _. gives tt

read_view-Errs : (p : List ℕ) (total : ℕ) → Errs (read_view p total)
unfolding read_view
read_view-Errs p total = Meets-bind (read_le32 p 48) _ (read_le32-Meets tt p 48) λ _ _.
    Meets-bind (read_le32 p 52) _ (read_le32-Meets tt p 52) λ _ _.
      Meets-bind (read_le16 p 14) _ (read_le16-Meets tt p 14) λ _ _.
        Meets-bind (read_le64 p 24) _ (read_le64-Meets tt p 24) λ _ _.
          Meets-bind (read_le64 p 32) _ (read_le64-Meets tt p 32)
            λ _ _. Meets-bind (read_le64 p 40) _ (read_le64-Meets tt p 40) λ _ _. gives tt

crc32c_zeroed_from-Errs : (p : List ℕ) (left i crc : ℕ) → Errs (crc32c_zeroed_from p left i crc)
unfolding crc32c_zeroed_from
crc32c_zeroed_from-Errs p zero i crc = gives tt
crc32c_zeroed_from-Errs p (suc left) i crc =
    Meets-bind (byte_zeroed p i) _
      (Meets-if (leb 20 i && ltb i 24) _ _ (λ _. gives tt) λ _. byte_at-Meets tt p i)
      λ byte _. crc32c_zeroed_from-Errs p left (suc i) _

crc32c_with_zeroed_field-Errs : (p : List ℕ) (total : ℕ) → Errs (crc32c_with_zeroed_field p total)
unfolding crc32c_with_zeroed_field
crc32c_with_zeroed_field-Errs p total =
    Meets-bind (crc32c_zeroed_from p total 0 0xFFFFFFFF) _
      (crc32c_zeroed_from-Errs p total 0 0xFFFFFFFF) λ crc _. gives tt

open_total-Errs : (p : List ℕ) (window_length total : ℕ) → Errs (open_total p window_length total)
unfolding open_total
open_total-Errs p window_length total =
    Meets-guard
      (ltb total header_size
        || ltb window_length total
        || ltb recommended_max_size total
        || not (length_is_aligned total))
      _ _ (λ p. cc)
      λ _. Meets-bind (read_le32 p 20) _ (read_le32-Meets tt p 20) λ expected _.
        Meets-bind (crc32c_with_zeroed_field p total) _ (crc32c_with_zeroed_field-Errs p total)
          λ actual _.
            Meets-guard (not (expected == actual)) _ _ (λ p. cc)
              λ _. Meets-bind (read_le16 p 14) _ (read_le16-Meets tt p 14) λ flags _.
                Meets-bind (read_le64 p 56) _ (read_le64-Meets tt p 56) λ reserved _.
                  Meets-guard (not (header_flags_are_known flags) || not (reserved == 0)) _ _
                    (λ p. cc)
                    λ _.
                      Meets-bind (read_view p total) _ (read_view-Errs p total)
                        λ view _. open_records-Errs p view

magic_from-Errs : (p : List ℕ) (i : ℕ) (ms : List ℕ) → Errs (magic_from p i ms)
magic_from-Errs p i [] = gives tt
magic_from-Errs p i (m ∷ ms) =
    Meets-bind (byte_at p i) _ (byte_at-Meets tt p i)
      λ b _. Meets-if (b == m) _ _ (λ _. magic_from-Errs p (suc i) ms) λ _. gives tt

pub open_header-Errs : (p : List ℕ) (window_length : ℕ) → Errs (open_header p window_length)
unfolding open_header magic_is_valid
open_header-Errs p window_length =
    Meets-bind (magic_from p 0 Format.magic) _ (magic_from-Errs p 0 Format.magic) λ valid _.
      Meets-guard (not valid) _ _ (λ p. cc)
        λ _. Meets-bind (read_le16 p 8) _ (read_le16-Meets tt p 8) λ major _.
          Meets-guard (not (major == version_major_v1)) _ _ (λ p. cc)
            λ _. Meets-bind (read_le16 p 12) _ (read_le16-Meets tt p 12) λ size _.
              Meets-guard (not (size == header_size)) _ _ (λ p. cc)
                λ _.
                  Meets-bind (read_le32 p 16) _ (read_le32-Meets tt p 16)
                    λ total _. open_total-Errs p window_length total
