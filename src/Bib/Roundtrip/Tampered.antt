-- ===== src/Bib/Roundtrip/Tampered.antt =====
-- A sealed block with one byte changed behind its header.
use atarix.Prelude.{
  ℕ, ◌+◌, ◌-◌, ◌%◌, ◌^◌, ◌≤◌, ◌<◌, ◌≡◌, ◌≢◌, refl, sym, ap, ap₂, ◌∙◌, subst, Bool, true, false, not,
  ◌||◌, Option, some, List, [], ◌∷◌, ◌++◌, length, length-append, append_assoc, get_elem?,
  get_elem?-append, get_elem?-append_front, set, set-append, set-append_front, set_at, split_at,
  take, take-append, drop, ltb, ◌==◌, arith, if◌then◌else◌, bit_xor,
}
use atarix.Prelude.Bits.{bit_xor_cancel}
use atarix.Prelude.Bits.Masks.{bit_and_mask}
use atarix.Prelude.Outcome.{value, fail}
use atarix.Crc.{update}
use atarix.Crc.Detect.{AreBytes, update-lt, byte_change_detected}
use atarix.Bib.Format.{
  BibError, total_length, bad_crc, header_size, recommended_max_size, length_is_aligned,
}
use atarix.Bib.Bytes.{le32}
use atarix.Bib.Layout.{Tlv, HeaderWords, encode_all, header_bytes}
use atarix.Bib.Builder
use atarix.Bib.Builder.{BibBuilder, builder_seal, crc32c, u32_max}
use atarix.Bib.Builder.Records.{Building, seal-IsImage}
use atarix.Bib.Checksum.{generator, generator-IsGenerator, crc32c-eq, crc32c-lt, crc32c_zeroed-eq}
use atarix.Bib.Reader.{
  BibView, zero_view, crc32c_with_zeroed_field, open_total, open_header, view_written, reader_open,
}
use atarix.Bib.Reader.Records.{AreOpenable}
use atarix.Bib.Roundtrip.Header.{
  HeaderFits, AreBytes-append, encode_all-AreBytes, start_bytes, end_bytes, start-AreBytes,
  end-AreBytes, magic_read, major_read, size_read, total_read, crc_read,
}
use atarix.Bib.Roundtrip.Open.{sizes_aligned}

-- A header whose checksum is not the one of the block.
module _ (h : HeaderWords) (n crc count : ℕ) (body : List ℕ) (fits : HeaderFits h) where
  abbrev block : List ℕ
  block = header_bytes h n crc count ++ body

  open_header-mismatch :
      (window_length actual : ℕ)
      → header_size ≤ n
      → n ≤ window_length
      → n < 2 ^ 32
      → n % 8 ≡ 0
      → crc < 2 ^ 32
      → crc32c_with_zeroed_field block n ≡ value actual
      → crc ≢ actual
      → open_header block window_length
        ≡ (if ltb recommended_max_size n then fail total_length else fail bad_crc)
  unfolding open_header open_total
  open_header-mismatch window_length actual room within words multiple crc_fits computed ne =
      let aligned : length_is_aligned n ≡ true =
        unfold length_is_aligned in ground (arith, bit_and_mask 3 n) in
      let tests : (ltb n header_size
            || ltb window_length n
            || ltb recommended_max_size n
            || not (length_is_aligned n))
          ≡ ltb recommended_max_size n =
        rw aligned (ground arith) in
      let other : (crc == actual) ≡ false = ground arith in
      rw
        (
          magic_read h n crc count body fits,
          major_read h n crc count body fits,
          size_read h n crc count body fits,
          total_read h n crc count body fits words,
          tests,
          crc_read h n crc count body fits crc_fits,
          computed,
          other,
        )
        refl

AreBytes-split : (xs ys : List ℕ) → AreBytes (xs ++ ys) → AreBytes xs × AreBytes ys
AreBytes-split [] ys p = (tt, p)
AreBytes-split (x ∷ xs) ys p = let (a, b) = AreBytes-split xs ys p.1 in ((p.0, a), b)

-- Two messages that differ in one byte, and their checksums.
checksums_differ :
    (before : List ℕ) (x y : ℕ) (after : List ℕ)
    → AreBytes before
    → x < 256
    → y < 256
    → AreBytes after
    → x ≢ y
    → bit_xor (update generator u32_max (before ++ x ∷ after)) u32_max
      ≢ bit_xor (update generator u32_max (before ++ y ∷ after)) u32_max
checksums_differ before x y after bs hx hy rs ne e =
    let left =
      update-lt generator generator-IsGenerator u32_max (before ++ x ∷ after) (omega arith)
        (AreBytes-append before (x ∷ after) bs (hx, rs)) in
    let right =
      update-lt generator generator-IsGenerator u32_max (before ++ y ∷ after) (omega arith)
        (AreBytes-append before (y ∷ after) bs (hy, rs)) in
    ne (
      byte_change_detected generator generator-IsGenerator u32_max before x y after (omega arith) bs
        hx hy rs
        (bit_xor_cancel 32 (update generator u32_max (before ++ x ∷ after))
          (update generator u32_max (before ++ y ∷ after)) u32_max left right (omega arith) e))

-- The bytes under the checksum, with zeros in its field.
module _ (h : HeaderWords) (n count : ℕ) (content rest : List ℕ)
    (size : n ≡ header_size + length content) (bytes : AreBytes content) where
  abbrev header0 : List ℕ
  header0 = header_bytes h n 0 count

  header0-AreBytes : AreBytes header0
  header0-AreBytes =
      AreBytes-append (start_bytes h n) (le32 0 ++ end_bytes h count) (start-AreBytes h n)
        (AreBytes-append (le32 0) (end_bytes h count) (ground arith) (end-AreBytes h count))

  message : take n (header0 ++ (content ++ rest)) ≡ header0 ++ content
  message =
      let sizes : n ≡ length (header0 ++ content) = omega (arith, size) in
      ap₂ (λ k l. take k l) sizes (sym (append_assoc header0 content rest))
      ∙ take-append (header0 ++ content) rest

  message-AreBytes : AreBytes (take n (header0 ++ (content ++ rest)))
  message-AreBytes =
      subst AreBytes (sym message) (AreBytes-append header0 content header0-AreBytes bytes)

  checksum :
      crc32c (header0 ++ (content ++ rest)) n
      ≡ bit_xor (update generator u32_max (header0 ++ content)) u32_max
  checksum =
      crc32c-eq (header0 ++ (content ++ rest)) n message-AreBytes
      ∙ ap (λ m. bit_xor (update generator u32_max m) u32_max) message

  checksum-lt : crc32c (header0 ++ (content ++ rest)) n < 2 ^ 32
  checksum-lt = crc32c-lt (header0 ++ (content ++ rest)) n message-AreBytes

  read_checksum :
      (crc : ℕ)
      → crc32c_with_zeroed_field (header_bytes h n crc count ++ (content ++ rest)) n
        ≡ value (crc32c (header0 ++ (content ++ rest)) n)
  read_checksum crc =
      crc32c_zeroed-eq (start_bytes h n) (le32 crc) (le32 0)
        (end_bytes h count ++ (content ++ rest)) n refl refl refl
        (omega (arith, size, length-append content rest)) message-AreBytes

-- The verdict over a changed block.
abbrev pub tampered : ℕ → BibError × Option BibView
tampered n =
    if ltb recommended_max_size n then (total_length, some zero_view) else (bad_crc, some zero_view)

open_changed :
    (h : HeaderWords) (n count : ℕ) (before : List ℕ) (x y : ℕ) (after rest : List ℕ)
    (window_length : ℕ)
    → HeaderFits h
    → AreBytes (before ++ x ∷ after)
    → y < 256
    → x ≢ y
    → n ≡ header_size + length (before ++ x ∷ after)
    → n % 8 ≡ 0
    → n < 2 ^ 32
    → n ≤ window_length
    → open_header
        (header_bytes h n
            (crc32c (header_bytes h n 0 count ++ (before ++ x ∷ after ++ rest)) n)
            count
          ++ (before ++ y ∷ after ++ rest))
        window_length
      ≡ (if ltb recommended_max_size n then fail total_length else fail bad_crc)
open_changed h n count before x y after rest window_length fits bytes hy ne size multiple words
      within =
    let header0 = header_bytes h n 0 count in
    let good = before ++ x ∷ after in
    let bad = before ++ y ∷ after in
    let (bs, tail) = AreBytes-split before (x ∷ after) bytes in
    let bad_bytes : AreBytes bad = AreBytes-append before (y ∷ after) bs (hy, tail.1) in
    let bad_size : n ≡ header_size + length bad =
      omega (arith, size, length-append before (x ∷ after), length-append before (y ∷ after)) in
    let differ : crc32c (header0 ++ (good ++ rest)) n ≢ crc32c (header0 ++ (bad ++ rest)) n = λ e.
      checksums_differ (header0 ++ before) x y after
        (AreBytes-append header0 before (header0-AreBytes h n count good rest size bytes) bs) tail.0
        hy tail.1 ne
        (ap (λ m. bit_xor (update generator u32_max m) u32_max)
            (append_assoc header0 before (x ∷ after))
          ∙ sym (checksum h n count good rest size bytes)
          ∙ e
          ∙ checksum h n count bad rest bad_size bad_bytes
          ∙ ap (λ m. bit_xor (update generator u32_max m) u32_max)
              (sym (append_assoc header0 before (y ∷ after)))) in
    open_header-mismatch h n (crc32c (header0 ++ (good ++ rest)) n) count (bad ++ rest) fits
      window_length (crc32c (header0 ++ (bad ++ rest)) n) (omega arith) within words multiple
      (checksum-lt h n count good rest size bytes)
      (read_checksum h n count bad rest bad_size bad_bytes (crc32c (header0 ++ (good ++ rest)) n))
      differ

reader_open_long :
    (p : List ℕ) (window_length : ℕ) (old : BibView)
    → header_size ≤ window_length
    → reader_open (some old) (some p) window_length ≡ view_written (open_header p window_length)
unfolding reader_open
reader_open_long p window_length old h =
    let long : ltb window_length header_size ≡ false = ground arith in rw long refl

verdict :
    (n : ℕ)
    → view_written (if ltb recommended_max_size n then fail total_length else fail bad_crc)
      ≡ value (tampered n)
verdict n = go (ltb recommended_max_size n)
  where
    go :
        (b : Bool)
        → view_written (if b then fail total_length else fail bad_crc)
          ≡ value (if b then (total_length, some zero_view) else (bad_crc, some zero_view))
    go true = refl
    go false = refl

-- A sealed block of at most 64 KiB with any one byte changed behind the header, in a record's header,
-- its payload or its padding, is refused with a CRC mismatch, and the view is zeroed; a longer block is
-- refused for its length. The header's words fit and the records are openable.
pub reader_open-tampered :
    (h : HeaderWords) (recs : List Tlv) (b after : BibBuilder) (q : List ℕ)
    (n i x y window_length : ℕ) (old : BibView)
    → Building h recs b
    → builder_seal (some b) ≡ (Builder.ok, some after, some n)
    → after.buffer ≡ some q
    → HeaderFits h
    → AreOpenable recs
    → header_size ≤ i
    → i < n
    → get_elem? q i ≡ some x
    → y < 256
    → x ≢ y
    → n ≤ window_length
    → reader_open (some old) (some (set q i y)) window_length ≡ value (tampered n)
reader_open-tampered h recs b after q n i x y window_length old building e has fits openable behind
      before_end found hy ne within =
    let image = seal-IsImage q n building e has in
    let count = length recs in
    let content = encode_all recs in
    let j = i - header_size in
    let inside : j < length content = omega (arith, image.size) in
    let crc = crc32c (header_bytes h n 0 count ++ (content ++ image.rest)) n in
    let header = header_bytes h n crc count in
    let at : i ≡ length header + j = omega arith in
    let found' : get_elem? content j ≡ some x =
      sym (get_elem?-append_front content image.rest j inside)
      ∙ sym (get_elem?-append header (content ++ image.rest) j)
      ∙ ap₂ (λ l k. get_elem? l k) (sym image.bytes) (sym at)
      ∙ found in
    let front = take j content in
    let back = drop (j + 1) content in
    let split : content ≡ front ++ x ∷ back = split_at content j found' in
    let changed : set q i y ≡ header ++ (front ++ y ∷ back ++ image.rest) =
      ap₂ (λ l k. set l k y) image.bytes at
      ∙ set-append header (content ++ image.rest) j y
      ∙ ap (λ l. header ++ l)
          (set-append_front content image.rest j y inside
            ∙ ap (λ l. l ++ image.rest) (set_at content j y inside)) in
    let opens =
      open_changed h n count front x y back image.rest window_length fits
        (subst AreBytes split (encode_all-AreBytes recs openable)) hy ne
        (omega (arith, image.size, ap (λ l. length l) split))
        (omega (arith, image.size, sizes_aligned recs)) (omega (arith, image.small)) within in
    let header_is : header
        ≡ header_bytes h n
            (crc32c (header_bytes h n 0 count ++ (front ++ x ∷ back ++ image.rest)) n) count =
      ap (λ l. header_bytes h n (crc32c (header_bytes h n 0 count ++ (l ++ image.rest)) n) count)
        split in
    reader_open_long (set q i y) window_length old (omega (arith, image.size))
    ∙ ap view_written (
        ap (λ l. open_header l window_length)
          (changed ∙ ap (λ l. l ++ (front ++ y ∷ back ++ image.rest)) header_is)
        ∙ opens)
    ∙ verdict n
