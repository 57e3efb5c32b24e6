-- ===== src/Bib/Roundtrip/Header.antt =====
-- The bytes of a sealed header, and what bib_reader.c loads from them.
use atarix.Prelude.{
  ℕ, zero, suc, ◌^◌, ◌<◌, ◌≡◌, refl, ap, true, some, List, [], ◌∷◌, ◌++◌, length, replicate, arith,
}
use atarix.Prelude.Outcome.{value, read_le16, read_le32, read_le64}
use atarix.Prelude.Outcome.Loads.{join16, join32, word64}
use atarix.Crc.Detect.{AreBytes}
use atarix.Bib.Format.{BibError, version_major_v1, version_minor_v0, header_size, magic}
use atarix.Bib.Bytes.{le16, le32}
use atarix.Bib.Layout.{
  Tlv, HeaderWords, le64, tlv_header, tlv_padding, encode, encode_all, header_bytes,
}
use atarix.Bib.Reader.{BibView, magic_is_valid, read_view}
use atarix.Bib.Reader.Records.{AreOpenable}

-- The words of a header fit their fields.
abbrev pub HeaderFits : HeaderWords → Type 0
HeaderFits h =
    (h.flags < 2 ^ 16)
    × (h.boot_id < 2 ^ 64)
    × (h.producer_id < 2 ^ 64)
    × (h.created_counter < 2 ^ 64)

pub AreBytes-append : (xs ys : List ℕ) → AreBytes xs → AreBytes ys → AreBytes (xs ++ ys)
AreBytes-append [] ys p q = q
AreBytes-append (x ∷ xs) ys p q = (p.0, AreBytes-append xs ys p.1 q)

zeros-AreBytes : (n : ℕ) → AreBytes (replicate n 0)
zeros-AreBytes zero = tt
zeros-AreBytes (suc n) = (omega arith, zeros-AreBytes n)

tlv_header-AreBytes : (r : Tlv) → AreBytes (tlv_header r)
tlv_header-AreBytes r = ground arith

pub encode_all-AreBytes : (recs : List Tlv) → AreOpenable recs → AreBytes (encode_all recs)
unfolding encode_all
encode_all-AreBytes [] openable = tt
encode_all-AreBytes (r ∷ rs) openable =
    AreBytes-append (encode r) (encode_all rs)
      (AreBytes-append (tlv_header r) (r.payload ++ replicate (tlv_padding r) 0)
        (tlv_header-AreBytes r)
        (AreBytes-append r.payload (replicate (tlv_padding r) 0) openable.0.0.3
          (zeros-AreBytes (tlv_padding r))))
      (encode_all-AreBytes rs openable.1)

-- The first 20 bytes of the header, and those behind its checksum.
abbrev pub start_bytes : HeaderWords → ℕ → List ℕ
start_bytes h n =
    magic
    ++ le16 version_major_v1
    ++ le16 version_minor_v0
    ++ le16 header_size
    ++ le16 h.flags
    ++ le32 n

abbrev pub end_bytes : HeaderWords → ℕ → List ℕ
end_bytes h count =
    le64 h.boot_id
    ++ le64 h.producer_id
    ++ le64 h.created_counter
    ++ le32 header_size
    ++ le32 count
    ++ le64 0

pub start-AreBytes : (h : HeaderWords) (n : ℕ) → AreBytes (start_bytes h n)
start-AreBytes h n = ground arith

pub end-AreBytes : (h : HeaderWords) (n : ℕ) → AreBytes (end_bytes h n)
end-AreBytes h n = ground arith

-- The view of a sealed block.
abbrev pub sealed_view : HeaderWords → List Tlv → List ℕ → ℕ → BibView
sealed_view h recs q n = record {
  buffer = some q;
  total_length = n;
  tlv_offset = header_size;
  tlv_count = length recs;
  flags = h.flags;
  boot_id = h.boot_id;
  producer_id = h.producer_id;
  created_counter = h.created_counter;
}

-- The header's fields, with anything behind them.
module _ (h : HeaderWords) (n crc count : ℕ) (body : List ℕ) (fits : HeaderFits h) where
  abbrev pub block : List ℕ
  block = header_bytes h n crc count ++ body

  pub magic_read : magic_is_valid block ≡ value true
  unfolding magic_is_valid
  magic_read = refl

  pub major_read : read_le16 {E = BibError} block 8 ≡ value version_major_v1
  unfolding read_le16
  major_read = refl

  pub size_read : read_le16 {E = BibError} block 12 ≡ value header_size
  unfolding read_le16
  size_read = refl

  pub total_read : n < 2 ^ 32 → read_le32 {E = BibError} block 16 ≡ value n
  unfolding read_le32
  total_read small = ap value (join32 n small)

  pub crc_read : crc < 2 ^ 32 → read_le32 {E = BibError} block 20 ≡ value crc
  unfolding read_le32
  crc_read small = ap value (join32 crc small)

  pub flags_read : read_le16 {E = BibError} block 14 ≡ value h.flags
  unfolding read_le16
  flags_read = ap value (join16 h.flags fits.0)

  pub reserved_read : read_le64 {E = BibError} block 56 ≡ value 0
  unfolding read_le64 read_le32
  reserved_read = refl

  pub boot_read : read_le64 {E = BibError} block 24 ≡ value h.boot_id
  unfolding read_le64 read_le32
  boot_read = word64 h.boot_id fits.1

  pub producer_read : read_le64 {E = BibError} block 32 ≡ value h.producer_id
  unfolding read_le64 read_le32
  producer_read = word64 h.producer_id fits.2

  pub counter_read : read_le64 {E = BibError} block 40 ≡ value h.created_counter
  unfolding read_le64 read_le32
  counter_read = word64 h.created_counter fits.3

  pub offset_read : read_le32 {E = BibError} block 48 ≡ value header_size
  unfolding read_le32
  offset_read = refl

  pub count_read : count < 2 ^ 32 → read_le32 {E = BibError} block 52 ≡ value count
  unfolding read_le32
  count_read small = ap value (join32 count small)

  pub read_view-block :
      count < 2 ^ 32
      → read_view block n
        ≡ value (record {
          buffer = some block;
          total_length = n;
          tlv_offset = header_size;
          tlv_count = count;
          flags = h.flags;
          boot_id = h.boot_id;
          producer_id = h.producer_id;
          created_counter = h.created_counter;
        })
  unfolding read_view
  read_view-block small =
      rw (offset_read, count_read small, flags_read, boot_read, producer_read, counter_read) refl
