-- ===== src/Bib/Roundtrip/Sealed.antt =====
-- What bib_reader.c makes of the blocks that bib_builder.c seals.
use atarix.Prelude.{
  ℕ, ◌+◌, ◌≤◌, ◌≡◌, refl, sym, ap₂, ◌∙◌, subst, false, some, List, ◌++◌, length, length-append,
  append_assoc, get_elem?, get_elem?-lt, take, take-append, drop, ltb, leb, arith, if◌then◌else◌,
  true,
}
use atarix.Prelude.Outcome.{value}
use atarix.Crc.Detect.{AreBytes}
use atarix.Bib.Format.{BibError, header_size, tlv_header_size}
use atarix.Bib.Bytes.{le32}
use atarix.Bib.Layout.{Tlv, HeaderWords, encode_all, header_bytes}
use atarix.Bib.Builder
use atarix.Bib.Builder.{BibBuilder, u32_max, builder_seal, crc32c}
use atarix.Bib.Builder.Records.{Building, IsImage, seal-IsImage}
use atarix.Bib.Checksum.{crc32c-lt, crc32c_zeroed-eq}
use atarix.Bib.Reader.{
  BibView, crc32c_with_zeroed_field, open_header, view_written, reader_open, reader_record,
}
use atarix.Bib.Reader.Records.{AreOpenable, view_at}
use atarix.Bib.Reader.Loops.{IsAt, skip-encode}
use atarix.Bib.Roundtrip.Header.{
  HeaderFits, AreBytes-append, encode_all-AreBytes, start_bytes, end_bytes, start-AreBytes,
  end-AreBytes, sealed_view,
}
use atarix.Bib.Roundtrip.Open.{opened, open_records-sealed, open_header-sealed, verdict}

-- The image of a sealed block, opened.
reader_open-image :
    (h : HeaderWords) (recs : List Tlv) (q : List ℕ) (n window_length : ℕ) (old : BibView)
    → IsImage h recs q n
    → HeaderFits h
    → AreOpenable recs
    → n ≤ window_length
    → reader_open (some old) (some q) window_length ≡ value (opened h recs q n)
unfolding reader_open
reader_open-image h recs q n window_length old image fits openable fits_window =
    let body = encode_all recs ++ image.rest in
    let blank = header_bytes h n 0 (length recs) ++ body in
    let crc = crc32c blank n in
    let block = header_bytes h n crc (length recs) ++ body in
    let sizes : n ≡ length (header_bytes h n 0 (length recs) ++ encode_all recs) =
      omega (arith, image.size) in
    let content : take n blank ≡ header_bytes h n 0 (length recs) ++ encode_all recs =
      ap₂ (λ k l. take k l) sizes
        (sym (append_assoc (header_bytes h n 0 (length recs)) (encode_all recs) image.rest))
      ∙ take-append (header_bytes h n 0 (length recs) ++ encode_all recs) image.rest in
    let bytes : AreBytes (take n blank) = subst AreBytes (sym content) (
      AreBytes-append (header_bytes h n 0 (length recs)) (encode_all recs)
        (AreBytes-append (start_bytes h n) (le32 0 ++ end_bytes h (length recs))
          (start-AreBytes h n)
          (AreBytes-append (le32 0) (end_bytes h (length recs)) (ground arith)
            (end-AreBytes h (length recs))))
        (encode_all-AreBytes recs openable)) in
    let checked : crc32c_with_zeroed_field block n ≡ value crc =
      crc32c_zeroed-eq (start_bytes h n) (le32 crc) (le32 0) (end_bytes h (length recs) ++ body) n
        refl refl refl (omega (arith, image.size, length-append (encode_all recs) image.rest))
        bytes in
    let header =
      open_header-sealed h recs image.rest n crc fits openable image.size image.counted
        window_length fits_window (omega (arith, image.small)) image.flags (crc32c-lt blank n bytes)
        checked in
    let records =
      open_records-sealed h recs image.rest n crc fits openable image.size image.counted in
    let long : ltb window_length header_size ≡ false = ground (arith, image.size) in
    subst
      (λ b.
        (if ltb window_length header_size
          then value (BibError.window, some old)
          else view_written (open_header b window_length))
        ≡ value (opened h recs b n))
      (sym image.bytes)
      (rw (long, header) (verdict h recs image.rest n crc fits openable image.size image.counted))

-- A sealed block of openable records, whose header words fit, is opened with the header's words,
-- its size and its number of records if it has at most 64 KiB and exactly one reference to a
-- service directory and one to a memory map; else the reader answers TOTAL_LENGTH for its size or
-- REQUIRED_RECORD, in this order, and zeroes the view. A reference is openable if its address and
-- length add up to less than 2 ^ 64, also with a zero address or length, which section 9 of
-- docs/boot-information-block-v1.md calls invalid for a mandatory reference.
pub reader_open-seal :
    (h : HeaderWords) (recs : List Tlv) (b after : BibBuilder) (q : List ℕ) (n window_length : ℕ)
    (old : BibView)
    → Building h recs b
    → builder_seal (some b) ≡ (Builder.ok, some after, some n)
    → after.buffer ≡ some q
    → HeaderFits h
    → AreOpenable recs
    → n ≤ window_length
    → reader_open (some old) (some q) window_length ≡ value (opened h recs q n)
reader_open-seal h recs b after q n window_length old building e has fits openable fits_window =
    reader_open-image h recs q n window_length old (seal-IsImage q n building e has) fits openable
      fits_window

record_of_image :
    (h : HeaderWords) (recs : List Tlv) (q : List ℕ) (n index : ℕ) (r : Tlv)
    → IsImage h recs q n
    → AreOpenable recs
    → get_elem? recs index ≡ some r
    → IsAt q n index header_size r
record_of_image h recs q n index r image openable found =
    let crc = crc32c (header_bytes h n 0 (length recs) ++ (encode_all recs ++ image.rest)) n in
    subst (λ b. IsAt b n index header_size r) (sym image.bytes)
      (skip-encode image.rest n (omega (arith, image.small)) (header_bytes h n crc (length recs))
        recs index r (omega (arith, image.size)) openable found)

-- In the view of a sealed block of openable records, the record of each index is the one that was
-- added with this index: its type, its flags, its size, and the payload's bytes.
pub reader_record-seal :
    (h : HeaderWords) (recs : List Tlv) (b after : BibBuilder) (q : List ℕ) (n index : ℕ) (r : Tlv)
    → Building h recs b
    → builder_seal (some b) ≡ (Builder.ok, some after, some n)
    → after.buffer ≡ some q
    → AreOpenable recs
    → get_elem? recs index ≡ some r
    → (at : ℕ) × (reader_record (some (sealed_view h recs q n)) index true ≡ value (view_at at r))
      × (take (length r.payload) (drop (at + tlv_header_size) q) ≡ r.payload)
unfolding reader_record
reader_record-seal h recs b after q n index r building e has openable found =
    let i = record_of_image h recs q n index r (seal-IsImage q n building e has) openable found in
    let lt = get_elem?-lt recs index found in
    let test : leb (length recs) index ≡ false = ground arith in
    (i.at, rw (test, i.skipped) i.read, i.payload)
