-- ===== src/Bib/Roundtrip/Open.antt =====
-- `atarix_bib_reader_open` over the bytes of a sealed block.
use native.Mathlib.Decide.{dec_lt}
use atarix.Prelude.{
  ℕ, ◌+◌, ◌*◌, ◌%◌, ◌^◌, ◌≤◌, ◌<◌, ◌≡◌, refl, Bool, true, false, not, ◌&&◌, ◌||◌, Option, some,
  List, [], ◌∷◌, ◌++◌, length, length-append, ltb, ◌==◌, arith, if◌then◌else◌,
}
use atarix.Prelude.Bits.Masks.{bit_and_mask}
use atarix.Prelude.Outcome.{value, fail}
use atarix.Bib.Format.{
  BibError, ok, total_length, required_record, header_size, tlv_header_size, recommended_max_size,
  service_directory_reference, memory_map_reference, length_is_aligned, header_flags_are_known,
}
use atarix.Bib.Layout.{
  Tlv, HeaderWords, encode, encode_all, header_bytes, count_type, length-encode,
}
use atarix.Bib.Reader.{
  BibView, zero_view, crc32c_with_zeroed_field, open_records, open_total, open_header, view_written,
}
use atarix.Bib.Reader.Records.{AreOpenable}
use atarix.Bib.Reader.Loops.{scan-encode}
use atarix.Bib.Roundtrip.Header.{
  HeaderFits, sealed_view, magic_read, major_read, size_read, total_read, crc_read, flags_read,
  reserved_read, read_view-block,
}

de_morgan :
    {A : Type 0} (a b : Bool) (x y : A)
    → (if not a || not b then x else y) ≡ (if a && b then y else x)
de_morgan true true x y = refl
de_morgan true false x y = refl
de_morgan false b x y = refl

-- The verdict over a sealed block, from its size and its required references.
abbrev pub opened : HeaderWords → List Tlv → List ℕ → ℕ → BibError × Option BibView
opened h recs q n =
    if ltb recommended_max_size n
    then (total_length, some zero_view)
    else if count_type service_directory_reference recs == 1
        && count_type memory_map_reference recs == 1
    then (ok, some (sealed_view h recs q n))
    else (required_record, some zero_view)

pub sizes_aligned : (recs : List Tlv) → length (encode_all recs) % 8 ≡ 0
unfolding encode_all
sizes_aligned [] = refl
sizes_aligned (r ∷ rs) =
    omega (arith, length-append (encode r) (encode_all rs), length-encode r, sizes_aligned rs)

module _ (h : HeaderWords) (recs : List Tlv) (rest : List ℕ) (n crc : ℕ) (fits : HeaderFits h)
    (openable : AreOpenable recs) (size : n ≡ header_size + length (encode_all recs))
    (counted : header_size + tlv_header_size * length recs ≤ n) where
  abbrev pub body : List ℕ
  body = encode_all recs ++ rest

  abbrev pub sealed : List ℕ
  sealed = header_bytes h n crc (length recs) ++ body

  pub aligned : length_is_aligned header_size ≡ true
  unfolding length_is_aligned
  aligned = refl

  pub open_records-sealed :
      n ≤ recommended_max_size
      → open_records sealed (sealed_view h recs sealed n) ≡ (
          if count_type service_directory_reference recs == 1
            && count_type memory_map_reference recs == 1
          then value (sealed_view h recs sealed n)
          else fail required_record)
  unfolding open_records
  open_records-sealed small =
      let offsets : (ltb header_size header_size
            || ltb n header_size
            || not (length_is_aligned header_size))
          ≡ false =
        rw aligned (ground arith) in
      let scanned =
        scan-encode rest n (omega arith) (header_bytes h n crc (length recs)) recs 0 0 size
          (omega arith) (omega arith) openable in
      let zero_s : 0 + count_type service_directory_reference recs
          ≡ count_type service_directory_reference recs =
        omega arith in
      let zero_m : 0 + count_type memory_map_reference recs ≡ count_type memory_map_reference recs =
        omega arith in
      let ended : (n == n) ≡ true = ground arith in
      rw (offsets, scanned, zero_s, zero_m, ended)
        (de_morgan (count_type service_directory_reference recs == 1)
          (count_type memory_map_reference recs == 1) _ _)

  pub total_aligned : length_is_aligned n ≡ true
  unfolding length_is_aligned
  total_aligned = ground (arith, bit_and_mask 3 n, sizes_aligned recs)

  pub open_header-sealed :
      (window_length : ℕ)
      → n ≤ window_length
      → n < 2 ^ 32
      → header_flags_are_known h.flags ≡ true
      → crc < 2 ^ 32
      → crc32c_with_zeroed_field sealed n ≡ value crc
      → open_header sealed window_length ≡ (
          if ltb recommended_max_size n
          then fail total_length
          else open_records sealed (sealed_view h recs sealed n))
  unfolding open_header open_total
  open_header-sealed window_length fits_window words known crc_fits checked =
      let magic_is = magic_read h n crc (length recs) body fits in
      let major_is = major_read h n crc (length recs) body fits in
      let size_is = size_read h n crc (length recs) body fits in
      let total_is = total_read h n crc (length recs) body fits words in
      let crc_is = crc_read h n crc (length recs) body fits crc_fits in
      let flags_is = flags_read h n crc (length recs) body fits in
      let reserved_is = reserved_read h n crc (length recs) body fits in
      let view_is = read_view-block h n crc (length recs) body fits (omega arith) in
      let tests : (ltb n header_size
            || ltb window_length n
            || ltb recommended_max_size n
            || not (length_is_aligned n))
          ≡ ltb recommended_max_size n =
        rw total_aligned (ground arith) in
      let same : (crc == crc) ≡ true = ground arith in
      rw
        (
          magic_is, major_is, size_is, total_is, tests, crc_is, checked, same, flags_is,
          reserved_is, known, view_is,
        )
        refl

  pub verdict :
      view_written (
        if ltb recommended_max_size n
        then fail total_length
        else open_records sealed (sealed_view h recs sealed n))
      ≡ value (opened h recs sealed n)
  verdict = elim (dec_lt recommended_max_size n) [
    | yes long ↦ let test : ltb recommended_max_size n ≡ true = ground arith in rw test refl
    | no short ↦
        let test : ltb recommended_max_size n ≡ false = ground arith in
        rw (test, open_records-sealed (omega arith))
          (written (
            count_type service_directory_reference recs == 1
            && count_type memory_map_reference recs == 1))
  ]
    where
      written :
          (b : Bool)
          → view_written (if b then value (sealed_view h recs sealed n) else fail required_record)
            ≡ value (
                if b
                then (ok, some (sealed_view h recs sealed n))
                else (required_record, some zero_view))
      written true = refl
      written false = refl
