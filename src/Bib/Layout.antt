-- ===== src/Bib/Layout.antt =====
-- The bytes of a boot information block as include/atarix/bib.h lays them out, written down on their
-- own: what src/bib/bib_builder.c writes and src/bib/bib_reader.c reads is compared with them.
use atarix.Prelude.{
  ℕ, ◌+◌, ◌-◌, ◌*◌, ◌/◌, ◌%◌, ◌^◌, ◌≡◌, List, [], ◌∷◌, ◌++◌, length, replicate, length-append,
  length-replicate, arith, ◌==◌, if◌then◌else◌,
}
use atarix.Bib.Format.{version_major_v1, version_minor_v0, header_size, tlv_header_size, magic}
use atarix.Bib.Bytes.{le16, le32}

-- A record as its producer sees it.
pub record Tlv : Type 0 where
  pub type : ℕ
  pub flags : ℕ
  pub payload : List ℕ

pub record HeaderWords : Type 0 where
  pub flags : ℕ
  pub boot_id : ℕ
  pub producer_id : ℕ
  pub created_counter : ℕ

abbrev pub le64 : ℕ → List ℕ
le64 v = le32 (v % 2 ^ 32) ++ le32 (v / 2 ^ 32 % 2 ^ 32)

-- A record takes a multiple of 8 bytes.
abbrev pub tlv_size : Tlv → ℕ
tlv_size r = (tlv_header_size + length r.payload + 7) / 8 * 8

abbrev pub tlv_padding : Tlv → ℕ
tlv_padding r = tlv_size r - (tlv_header_size + length r.payload)

abbrev pub tlv_header : Tlv → List ℕ
tlv_header r = le16 r.type ++ le16 r.flags ++ le32 (tlv_size r) ++ le32 (length r.payload) ++ le32 0

abbrev pub encode : Tlv → List ℕ
encode r = tlv_header r ++ (r.payload ++ replicate (tlv_padding r) 0)

unfoldable pub encode_all : List Tlv → List ℕ
encode_all [] = []
encode_all (r ∷ rs) = encode r ++ encode_all rs

abbrev pub header_bytes : HeaderWords → ℕ → ℕ → ℕ → List ℕ
header_bytes h total crc count =
    magic
    ++ le16 version_major_v1
    ++ le16 version_minor_v0
    ++ le16 header_size
    ++ le16 h.flags
    ++ le32 total
    ++ le32 crc
    ++ le64 h.boot_id
    ++ le64 h.producer_id
    ++ le64 h.created_counter
    ++ le32 header_size
    ++ le32 count
    ++ le64 0

-- The records of one type, counted.
unfoldable pub count_type : ℕ → List Tlv → ℕ
count_type type [] = 0
count_type type (r ∷ rs) = if r.type == type then 1 + count_type type rs else count_type type rs

pub length-encode : (r : Tlv) → length (encode r) ≡ tlv_size r
length-encode r = omega (
  arith,
  length-append r.payload (replicate {A = ℕ} (tlv_padding r) 0),
  length-replicate {A = ℕ} (tlv_padding r) 0,
)
