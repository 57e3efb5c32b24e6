-- ===== src/Discovery/Validate/Records.antt =====
-- What a validated image is: a chain of records, one behind the other, that ends with the END record.
use native.Mathlib.Decide.{ℕ_discrete}
use atarix.Prelude.{
  ℕ, zero, suc, ◌+◌, ◌-◌, ◌%◌, ◌≤◌, ◌≡◌, ◌≢◌, ◌⊎◌, not, ◌&&◌, ◌||◌, some, List, ltb, ◌==◌, arith,
}
use atarix.Prelude.Word.{u32}
use atarix.Prelude.Outcome.{value, read_le16, read_le32, >>=-eq-value, guard-eq-value}
use atarix.Discovery.Format.{
  DiscoveryResult, header_size, record_header_size, record_end, version_major_v1, magic_is_valid,
  aligned8,
}
use atarix.Discovery.Validate.{crc_valid, walk, validate_records, validate_header, validate}
use atarix.Discovery.Validate.Safety.{aligned8_iff}

-- The records from an offset on, by their number: each is aligned, as long as it says, and inside the
-- total length; the last one, and no other, is the END record.
pub data Chain (image : List ℕ) (total : ℕ) : ℕ → ℕ → Type 0 where
  last :
      {offset : ℕ}
      → offset % 8 ≡ 0
      → offset + record_header_size ≤ total
      → read_le16 {E = DiscoveryResult} image offset ≡ value record_end
      → Chain image total offset 1
  next :
      {offset n : ℕ} (record_length type : ℕ)
      → offset % 8 ≡ 0
      → read_le32 {E = DiscoveryResult} image (offset + 4) ≡ value record_length
      → record_header_size ≤ record_length
      → offset + record_length ≤ total
      → read_le16 {E = DiscoveryResult} image offset ≡ value type
      → type ≢ record_end
      → Chain image total (offset + record_length) n
      → Chain image total offset (suc n)

pub Chain-bounded :
    {image : List ℕ} {total offset n : ℕ} → Chain image total offset n → offset + n ≤ total
Chain-bounded (last a h r) = omega arith
Chain-bounded (next len type a r h inside t ne rest) = omega (arith, Chain-bounded rest)

walk-Chain :
    (fuel : ℕ) (image : List ℕ) (total offset seen count : ℕ)
    → walk fuel image total offset seen ≡ value count
    → (n : ℕ) × (count ≡ u32 (seen + n)) × Chain image total offset n
unfolding walk
walk-Chain zero image total offset seen count h = cc
walk-Chain (suc fuel) image total offset seen count h =
    let (t0, h0) = guard-eq-value (not (ltb offset total)) _ _ h in
    let (t1, h1) = guard-eq-value (not (aligned8 offset)) _ _ h0 in
    let (t2, h2) = guard-eq-value (ltb (total - offset) record_header_size) _ _ h1 in
    let (len, e, h3) = >>=-eq-value (read_le32 image (offset + 4)) _ h2 in
    let (t4, h4) = guard-eq-value (ltb len record_header_size || not (aligned8 len)) _ _ h3 in
    let (t5, h5) = guard-eq-value (ltb (total - offset) len) _ _ h4 in
    let (type, r, h6) = >>=-eq-value (read_le16 image offset) _ h5 in
    let aligned : offset % 8 ≡ 0 = ground (arith, aligned8_iff offset) in
    let header : offset + record_header_size ≤ total = ground arith in
    let enough : record_header_size ≤ len = ground arith in
    let inside : offset + len ≤ total = ground arith in
    elim (ℕ_discrete type record_end) [
      | yes is_end ↦ (1, ground arith, last aligned header (rw (← is_end) r))
      | no ne ↦
          let rest : walk fuel image total (offset + len) (u32 (seen + 1)) ≡ value count =
            ground arith in
          let (n, counted, chain) =
            walk-Chain fuel image total (offset + len) (u32 (seen + 1)) count rest in
          (suc n, omega arith, next len type aligned e enough inside r ne chain)
    ]

-- What is known of an image that was validated.
pub record IsImage (image : List ℕ) (image_size total records : ℕ) : Type 0 where
  pub total_length : read_le32 {E = DiscoveryResult} image 8 ≡ value total
  pub header : header_size ≤ total
  pub within : total ≤ image_size
  pub chain : Chain image total header_size records
  pub counted :
      (count : ℕ) × (read_le32 {E = DiscoveryResult} image 12 ≡ value count)
      × ((count ≡ 0) ⊎ (count ≡ u32 records))

-- An image that validates holds, within its size, a chain of aligned records from the header to an END
-- record, as many as the header counts if it counts them.
pub validate-IsImage :
    (image : List ℕ) (image_size : ℕ)
    → validate (some image) image_size ≡ value tt
    → (total records : ℕ) × IsImage image image_size total records
unfolding validate validate_header validate_records
validate-IsImage image image_size h =
    let (t0, h0) = guard-eq-value (ltb image_size header_size) _ _ h in
    let (magic, e1, h1) = >>=-eq-value (read_le32 image 0) _ h0 in
    let (t2, h2) = guard-eq-value (not (magic_is_valid magic)) _ _ h1 in
    let (major, e3, h3) = >>=-eq-value (read_le16 image 4) _ h2 in
    let (t4, h4) = guard-eq-value (not (major == version_major_v1)) _ _ h3 in
    let (total, e5, h5) = >>=-eq-value (read_le32 image 8) _ h4 in
    let (t6, h6) =
      guard-eq-value (ltb total header_size || ltb image_size total || not (aligned8 total)) _ _
        h5 in
    let (valid, e7, h7) = >>=-eq-value (crc_valid image image_size) _ h6 in
    let (t8, h8) = guard-eq-value (not valid) _ _ h7 in
    let (seen, e9, h9) = >>=-eq-value (walk total image total header_size 0) _ h8 in
    let (count, e10, h10) = >>=-eq-value (read_le32 image 12) _ h9 in
    let (t11, h11) = guard-eq-value (not (count == 0) && not (seen == count)) _ _ h10 in
    let (n, counted, chain) = walk-Chain total image total header_size 0 seen e9 in
    (
      total,
      n,
      record {
        total_length = e5;
        header = ground arith;
        within = ground arith;
        chain = chain;
        counted = (count, e10, ground arith);
      },
    )
