-- ===== src/Bib/Reader/Opened.antt =====
-- What a block that the reader opened can be asked for.
use atarix.Prelude.{
  ℕ, zero, suc, ◌+◌, ◌≤◌, ◌<◌, ◌≡◌, ◌∙◌, refl, ap, sym, subst, Bool, true, false, not, ◌||◌, Option,
  some, List, ltb, leb, ◌==◌, arith, if◌then◌else◌,
}
use atarix.Prelude.Word.{u32}
use atarix.Prelude.Outcome.{
  value, read_le16, read_le32, read_le64, value_injective, >>=-eq-value, guard-eq-value,
}
use atarix.Prelude.Outcome.Rules.{faults, fails, gives}
use atarix.Bib.Format.{
  BibError, ok, version_major_v1, header_size, recommended_max_size, service_directory_reference,
  memory_map_reference, length_is_aligned, header_flags_are_known,
}
use atarix.Bib.Reader.{
  Read, BibView, RecordView, crc32c_with_zeroed_field, magic_is_valid, record_at_offset,
  check_record, counted, scan, open_records, read_view, open_total, open_header, view_written,
  reader_open, skip_records, reader_record,
}
use atarix.Bib.Reader.Errors.{Errs, open_header-Errs}

-- The view of an opened block: it is within the bytes that the caller gave, and the scan over all of its records ended at its total length, with one
-- reference to a service directory and one to a memory map.
pub record IsOpen (p : List ℕ) (window_length : ℕ) (view : BibView) : Type 0 where
  pub within : view.total_length ≤ window_length
  pub buffer : view.buffer ≡ some p
  pub scanned :
      scan p view.total_length view.tlv_count view.tlv_offset 0 0 ≡ value (view.total_length, 1, 1)

read_view_kept :
    (p : List ℕ) (total : ℕ) (view : BibView)
    → read_view p total ≡ value view
    → (view.buffer ≡ some p) × (view.total_length ≡ total)
unfolding read_view
read_view_kept p total view h =
    let (tlv_offset, e1, h1) = >>=-eq-value (read_le32 p 48) _ h in
    let (tlv_count, e2, h2) = >>=-eq-value (read_le32 p 52) _ h1 in
    let (flags, e3, h3) = >>=-eq-value (read_le16 p 14) _ h2 in
    let (boot_id, e4, h4) = >>=-eq-value (read_le64 p 24) _ h3 in
    let (producer_id, e5, h5) = >>=-eq-value (read_le64 p 32) _ h4 in
    let (created_counter, e6, h6) = >>=-eq-value (read_le64 p 40) _ h5 in
    (
      sym (ap (λ (v : BibView). v.buffer) (value_injective h6)),
      sym (ap (λ (v : BibView). v.total_length) (value_injective h6)),
    )

open_records_scanned :
    (p : List ℕ) (view after : BibView)
    → open_records p view ≡ value after
    → (after ≡ view)
      × (scan p view.total_length view.tlv_count view.tlv_offset 0 0
          ≡ value (view.total_length, 1, 1))
unfolding open_records
open_records_scanned p view after h =
    let (t0, h0) =
      guard-eq-value
        (ltb view.tlv_offset header_size
          || ltb view.total_length view.tlv_offset
          || not (length_is_aligned view.tlv_offset))
        _ _ h in
    let ((offset, services, memories), e1, h1) =
      >>=-eq-value (scan p view.total_length view.tlv_count view.tlv_offset 0 0) _ h0 in
    let (t2, h2) = guard-eq-value (not (offset == view.total_length)) _ _ h1 in
    let (t3, h3) = guard-eq-value (not (services == 1) || not (memories == 1)) _ _ h2 in
    let same_offset : offset ≡ view.total_length = ground arith in
    let one_service : services ≡ 1 = ground arith in
    let one_memory : memories ≡ 1 = ground arith in
    (sym (value_injective h3), e1 ∙ both same_offset one_service one_memory)
  where
    both :
        {a b c : ℕ}
        → a ≡ view.total_length
        → b ≡ 1
        → c ≡ 1
        → ◌≡◌ {A = Read (ℕ × ℕ × ℕ)} (value (a, b, c)) (value (view.total_length, 1, 1))
    both p q r = rw (p, q, r) refl

open_header-IsOpen :
    (p : List ℕ) (window_length : ℕ) (view : BibView)
    → open_header p window_length ≡ value view
    → IsOpen p window_length view
unfolding open_header open_total
open_header-IsOpen p window_length view h =
    let (valid, e0, h0) = >>=-eq-value (magic_is_valid p) _ h in
    let (t1, h1) = guard-eq-value (not valid) _ _ h0 in
    let (major, e2, h2) = >>=-eq-value (read_le16 p 8) _ h1 in
    let (t3, h3) = guard-eq-value (not (major == version_major_v1)) _ _ h2 in
    let (size, e4, h4) = >>=-eq-value (read_le16 p 12) _ h3 in
    let (t5, h5) = guard-eq-value (not (size == header_size)) _ _ h4 in
    let (total, e6, h6) = >>=-eq-value (read_le32 p 16) _ h5 in
    let (t7, h7) =
      guard-eq-value
        (ltb total header_size
          || ltb window_length total
          || ltb recommended_max_size total
          || not (length_is_aligned total))
        _ _ h6 in
    let (expected, e8, h8) = >>=-eq-value (read_le32 p 20) _ h7 in
    let (actual, e9, h9) = >>=-eq-value (crc32c_with_zeroed_field p total) _ h8 in
    let (t10, h10) = guard-eq-value (not (expected == actual)) _ _ h9 in
    let (flags, e11, h11) = >>=-eq-value (read_le16 p 14) _ h10 in
    let (reserved, e12, h12) = >>=-eq-value (read_le64 p 56) _ h11 in
    let (t13, h13) =
      guard-eq-value (not (header_flags_are_known flags) || not (reserved == 0)) _ _ h12 in
    let (read, e14, h14) = >>=-eq-value (read_view p total) _ h13 in
    let (same, scanned) = open_records_scanned p read view h14 in
    let (kept, total_is) = read_view_kept p total read e14 in
    let in_window : total ≤ window_length = ground arith in
    subst (IsOpen p window_length) (sym same)
      (record { within = rw total_is in_window; buffer = kept; scanned = scanned })

-- A view that was written with ATARIX_BIB_OK is the one that was read.
written_value :
    (m : Read BibView) (view : BibView)
    → Errs m
    → view_written m ≡ value (ok, some view)
    → m ≡ value view
written_value _ view (faults x) h = cc
written_value _ view (fails {e} ne) h = let is_ok : e ≡ ok = cc in absurd (ne is_ok)
written_value _ view (gives {a} x) h = let same : a ≡ view = cc in rw same refl

pub reader_open-IsOpen :
    (old view : BibView) (p : List ℕ) (window_length : ℕ)
    → reader_open (some old) (some p) window_length ≡ value (ok, some view)
    → IsOpen p window_length view
unfolding reader_open
reader_open-IsOpen old view p window_length h = open_header-IsOpen p window_length view (
    written_value (open_header p window_length) view (open_header-Errs p window_length)
      (passed (ltb window_length header_size) h))
  where
    passed :
        (short : Bool) {m : Read (BibError × Option BibView)}
        → (if short then value (BibError.window, some old) else m) ≡ value (ok, some view)
        → m ≡ value (ok, some view)
    passed true e = cc
    passed false e = e

-- Each record that the scan passed is found again by skipping those before it.
scan-skip :
    (p : List ℕ) (total left index offset services memories : ℕ) (result : ℕ × ℕ × ℕ)
    → scan p total left offset services memories ≡ value result
    → index < left
    → (at : ℕ) × (r : RecordView) × (skip_records p total index offset ≡ value at)
      × (record_at_offset p total at ≡ value r)
unfolding scan skip_records
scan-skip p total zero index offset services memories result h lt = absurd (omega arith)
scan-skip p total (suc left) zero offset services memories result h lt =
    let (r, e0, h0) = >>=-eq-value (record_at_offset p total offset) _ h in (offset, r, refl, e0)
scan-skip p total (suc left) (suc index) offset services memories result h lt =
    let (r, e0, h0) = >>=-eq-value (record_at_offset p total offset) _ h in
    let (done, e1, h1) = >>=-eq-value (check_record p r) _ h0 in
    rw e0 (
      scan-skip p total left index (u32 (offset + r.serialized_length))
        (counted service_directory_reference r.type services)
        (counted memory_map_reference r.type memories) result h1 (omega arith))

-- Every record of an opened block can be read: none of them is refused later.
pub reader_record-open :
    (old view : BibView) (p : List ℕ) (window_length index : ℕ)
    → reader_open (some old) (some p) window_length ≡ value (ok, some view)
    → index < view.tlv_count
    → (r : RecordView) × (reader_record (some view) index true ≡ value r)
unfolding reader_record
reader_record-open old view p window_length index h lt =
    let open_view = reader_open-IsOpen old view p window_length h in
    let (at, r, skipped, found) =
      scan-skip p view.total_length view.tlv_count index view.tlv_offset 0 0
        (view.total_length, 1, 1) open_view.scanned lt in
    let in_range : leb view.tlv_count index ≡ false = ground arith in
    (r, rw (open_view.buffer, in_range, skipped) found)
