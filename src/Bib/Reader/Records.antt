-- ===== src/Bib/Reader/Records.antt =====
-- What the reader loads from an encoded record, and its checks of it.
use atarix.Prelude.{
  ℕ, ◌+◌, ◌-◌, ◌^◌, ◌≤◌, ◌<◌, ◌≡◌, refl, sym, ap, ◌∙◌, Bool, true, false, not, ◌&&◌, ◌||◌, List, [],
  ◌∷◌, ◌++◌, length, length-append, append_assoc, replicate, ap₂, ltb, ◌==◌, arith,
}
use atarix.Prelude.Bits.Masks.{bit_and_mask}
use atarix.Prelude.Word.{has_flag}
use atarix.Prelude.Outcome.{value, read_le16, read_le32, read_le64, read_le64-value}
use atarix.Prelude.Outcome.Loads.{
  read_le16-append, read_le32-append, read_le64-append, read_le64-front, join16, join32,
}
use atarix.Crc.Detect.{AreBytes}
use atarix.Bib.Format.{
  BibError, tlv_header_size, reference_fixed_size, flag_mandatory, service_directory_reference,
  memory_map_reference, length_is_aligned, tlv_flags_are_known,
}
use atarix.Bib.Layout.{Tlv, tlv_size, tlv_header, tlv_padding, encode}
use atarix.Bib.Reader.{RecordView, known_type, record_at_offset, check_reference, check_record}

-- What a view of the record at an offset says.
abbrev pub view_at : ℕ → Tlv → RecordView
view_at at r = record {
  type = r.type;
  flags = r.flags;
  payload = at + tlv_header_size;
  payload_length = length r.payload;
  serialized_length = tlv_size r;
}

-- The fields of a record fit their words, and its payload is made of bytes.
abbrev pub Fits : Tlv → Type 0
Fits r =
    (r.type < 2 ^ 16)
    × (r.flags < 2 ^ 16)
    × (tlv_flags_are_known r.flags ≡ true)
    × AreBytes r.payload

module _ (xs ys : List ℕ) (r : Tlv) where
  abbrev buffer : List ℕ
  buffer = xs ++ (encode r ++ ys)

  size_read :
      tlv_size r < 2 ^ 32 → read_le32 {E = BibError} buffer (length xs + 4) ≡ value (tlv_size r)
  unfolding read_le32
  size_read h = read_le32-append xs (encode r ++ ys) 4 ∙ ap value (join32 (tlv_size r) h)

  length_read :
      length r.payload < 2 ^ 32
      → read_le32 {E = BibError} buffer (length xs + 8) ≡ value (length r.payload)
  unfolding read_le32
  length_read h = read_le32-append xs (encode r ++ ys) 8 ∙ ap value (join32 (length r.payload) h)

  reserved_read : read_le32 {E = BibError} buffer (length xs + 12) ≡ value 0
  unfolding read_le32
  reserved_read = read_le32-append xs (encode r ++ ys) 12

  flags_read : r.flags < 2 ^ 16 → read_le16 {E = BibError} buffer (length xs + 2) ≡ value r.flags
  unfolding read_le16
  flags_read h = read_le16-append xs (encode r ++ ys) 2 ∙ ap value (join16 r.flags h)

  type_read : r.type < 2 ^ 16 → read_le16 {E = BibError} buffer (length xs) ≡ value r.type
  unfolding read_le16
  type_read h =
      let start : length xs ≡ length xs + 0 = omega arith in
      ap (read_le16 buffer) start
      ∙ read_le16-append xs (encode r ++ ys) 0
      ∙ ap value (join16 r.type h)

  pub record_at_offset-encode :
      (total : ℕ)
      → length xs + tlv_size r ≤ total
      → total < 2 ^ 32
      → Fits r
      → record_at_offset buffer total (length xs) ≡ value (view_at (length xs) r)
  unfolding record_at_offset
  record_at_offset-encode total within small (type_fits, flags_fit, known, bytes) =
      let enough : (ltb total (length xs) || ltb (total - length xs) tlv_header_size) ≡ false =
        ground arith in
      let aligned : length_is_aligned (tlv_size r) ≡ true =
        unfold length_is_aligned in ground (arith, bit_and_mask 3 (tlv_size r)) in
      let bounds : (ltb (tlv_size r) tlv_header_size
            || not (length_is_aligned (tlv_size r))
            || ltb (total - length xs) (tlv_size r)
            || ltb (tlv_size r - tlv_header_size) (length r.payload))
          ≡ false =
        rw aligned (ground arith) in
      rw
        (
          enough,
          size_read (omega arith),
          length_read (omega arith),
          bounds,
          flags_read flags_fit,
          reserved_read,
          known,
          type_read type_fits,
        )
        refl

-- The types of the references that a block must have.
abbrev pub is_required : ℕ → Bool
is_required type = type == service_directory_reference || type == memory_map_reference

-- A reference has its fixed part, and its object does not wrap around.
abbrev pub IsReference : List ℕ → Type 0
IsReference payload =
    (reference_fixed_size ≤ length payload)
    × ((address size : ℕ)
        → read_le64 {E = BibError} payload 8 ≡ value address
        → read_le64 {E = BibError} payload 16 ≡ value size
        → address + size < 2 ^ 64)

-- A record that a reader lets pass: its fields fit, its type is known if it is mandatory, and it is a
-- reference where its type requires one.
abbrev pub IsOpenable : Tlv → Type 0
IsOpenable r =
    Fits r
    × ((not (known_type r.type) && has_flag r.flags flag_mandatory) ≡ false)
    × (is_required r.type ≡ true → IsReference r.payload)

abbrev pub AreOpenable : List Tlv → Type 0
AreOpenable [] = Unit
AreOpenable (r ∷ rs) = IsOpenable r × AreOpenable rs

module _ (xs ys : List ℕ) (r : Tlv) where
  payload_read64 :
      (i : ℕ)
      → i + 8 ≤ length r.payload
      → read_le64 {E = BibError} (xs ++ (encode r ++ ys)) (length xs + tlv_header_size + i)
        ≡ read_le64 r.payload i
  payload_read64 i h =
      let behind : length xs + tlv_header_size + i ≡ length (xs ++ tlv_header r) + i =
        omega (arith, length-append xs (tlv_header r)) in
      let zeros = replicate {A = ℕ} (tlv_padding r) 0 in
      let laid_out : xs ++ (encode r ++ ys) ≡ xs ++ tlv_header r ++ (r.payload ++ (zeros ++ ys)) =
        ap (λ l. xs ++ (tlv_header r ++ l)) (append_assoc r.payload zeros ys)
        ∙ sym (append_assoc xs (tlv_header r) (r.payload ++ (zeros ++ ys))) in
      ap₂ (λ l n. read_le64 l n) laid_out behind
      ∙ read_le64-append (xs ++ tlv_header r) (r.payload ++ (zeros ++ ys)) i
      ∙ read_le64-front r.payload (zeros ++ ys) i h

  pub check_record-encode :
      IsOpenable r → check_record (xs ++ (encode r ++ ys)) (view_at (length xs) r) ≡ value tt
  unfolding check_record check_reference
  check_record-encode (fits, allowed, reference) = rw allowed (go (is_required r.type) refl)
    where
      go :
          (required : Bool)
          → is_required r.type ≡ required
          → check_reference (xs ++ (encode r ++ ys)) (view_at (length xs) r) ≡ value tt
      go false e = rw e refl
      go true e =
          let (long, bounded) = reference e in
          let (address, ea) = read_le64-value {E = BibError} r.payload 8 (omega arith) in
          let (size, es) = read_le64-value {E = BibError} r.payload 16 (omega arith) in
          let sum = bounded address size ea es in
          let enough : ltb (length r.payload) reference_fixed_size ≡ false = ground arith in
          let no_wrap : ltb (2 ^ 64 - 1 - size) address ≡ false = ground arith in
          rw
            (
              e,
              enough,
              payload_read64 8 (omega arith),
              ea,
              payload_read64 16 (omega arith),
              es,
              no_wrap,
            )
            refl
