-- ===== src/Bib/Reader/Loops.antt =====
-- The reader's loops over encoded records.
use atarix.Prelude.{
  ℕ, zero, suc, ◌+◌, ◌^◌, ◌<◌, ◌≡◌, refl, sym, ap, ◌∙◌, subst, some, List, [], ◌∷◌, ◌++◌, length,
  length-append, append_assoc, get_elem?, take, take-append, drop, drop-append, replicate, ap₂,
  arith,
}
use atarix.Prelude.Word.{u32}
use atarix.Prelude.Outcome.{value}
use atarix.Bib.Format.{tlv_header_size, service_directory_reference, memory_map_reference}
use atarix.Bib.Layout.{
  Tlv, tlv_size, tlv_header, tlv_padding, encode, encode_all, count_type, length-encode,
}
use atarix.Bib.Reader.{RecordView, record_at_offset, check_record, counted, scan, skip_records}
use atarix.Bib.Reader.Records.{view_at, record_at_offset-encode, AreOpenable, check_record-encode}

next_buffer :
    (xs ys : List ℕ) (r : Tlv) (rs : List Tlv)
    → xs ++ (encode_all (r ∷ rs) ++ ys) ≡ xs ++ (encode r ++ (encode_all rs ++ ys))
unfolding encode_all
next_buffer xs ys r rs = ap (λ l. xs ++ l) (append_assoc (encode r) (encode_all rs) ys)

-- The same bytes, with the first record counted to those behind.
passed_buffer :
    (xs ys : List ℕ) (r : Tlv) (rs : List Tlv)
    → xs ++ (encode r ++ (encode_all rs ++ ys)) ≡ xs ++ encode r ++ (encode_all rs ++ ys)
passed_buffer xs ys r rs = sym (append_assoc xs (encode r) (encode_all rs ++ ys))

length-encode_all :
    (r : Tlv) (rs : List Tlv) → length (encode_all (r ∷ rs)) ≡ tlv_size r + length (encode_all rs)
unfolding encode_all
length-encode_all r rs = omega (arith, length-append (encode r) (encode_all rs), length-encode r)

counted-next :
    (type n : ℕ) (r : Tlv) (rs : List Tlv)
    → n + suc (length rs) < 2 ^ 32
    → (counted type r.type n + count_type type rs ≡ n + count_type type (r ∷ rs))
      × (counted type r.type n + length rs < 2 ^ 32)
unfolding count_type
counted-next type n r rs h = ground arith

-- One round of the loop of `atarix_bib_reader_open`.
scan_step :
    (p : List ℕ) (total left offset services memories : ℕ) (r : RecordView)
    → record_at_offset p total offset ≡ value r
    → check_record p r ≡ value tt
    → scan p total (suc left) offset services memories
      ≡ scan p total left
          (u32 (offset + r.serialized_length))
          (counted service_directory_reference r.type services)
          (counted memory_map_reference r.type memories)
unfolding scan
scan_step p total left offset services memories r read checked = rw (read, checked) refl

module _ (ys : List ℕ) (total : ℕ) (small : total < 2 ^ 32) where
  pub scan-encode :
      (xs : List ℕ) (recs : List Tlv) (services memories : ℕ)
      → total ≡ length xs + length (encode_all recs)
      → services + length recs < 2 ^ 32
      → memories + length recs < 2 ^ 32
      → AreOpenable recs
      → scan (xs ++ (encode_all recs ++ ys)) total (length recs) (length xs) services memories
        ≡ value (
          total,
          services + count_type service_directory_reference recs,
          memories + count_type memory_map_reference recs,
        )
  unfolding encode_all
  scan-encode xs [] services memories size fs fm openable =
      unfold scan count_type in
      (let a : length xs ≡ total = omega arith in
        let b : services ≡ services + 0 = omega arith in
        let c : memories ≡ memories + 0 = omega arith in rw (← a, ← b, ← c) refl)
  scan-encode xs (r ∷ rs) services memories size fs fm (openable, rest) =
      let sizes = length-encode_all r rs in
      let p = xs ++ (encode r ++ (encode_all rs ++ ys)) in
      let (es, ls) = counted-next service_directory_reference services r rs fs in
      let (em, lm) = counted-next memory_map_reference memories r rs fm in
      let next : u32 (length xs + tlv_size r) ≡ length (xs ++ encode r) =
        omega (arith, length-append xs (encode r), length-encode r) in
      let s' = counted service_directory_reference r.type services in
      let m' = counted memory_map_reference r.type memories in
      ap (λ q. scan q total (suc (length rs)) (length xs) services memories)
        (next_buffer xs ys r rs)
      ∙ scan_step p total (length rs) (length xs) services memories (view_at (length xs) r)
          (record_at_offset-encode xs (encode_all rs ++ ys) r total (omega arith) small openable.0)
          (check_record-encode xs (encode_all rs ++ ys) r openable)
      ∙ ap₂ (λ q at. scan q total (length rs) at s' m') (passed_buffer xs ys r rs) next
      ∙ scan-encode (xs ++ encode r) rs s' m'
          (omega (arith, length-append xs (encode r), length-encode r)) ls lm rest
      ∙ ap₂ (λ a b. value (total, a, b)) es em

-- One round of the loop of `atarix_bib_reader_record`.
skip_step :
    (p : List ℕ) (total left offset : ℕ) (r : RecordView)
    → record_at_offset p total offset ≡ value r
    → skip_records p total (suc left) offset
      ≡ skip_records p total left (u32 (offset + r.serialized_length))
unfolding skip_records
skip_step p total left offset r read = rw read refl

payload_bytes_at :
    (xs ys : List ℕ) (r : Tlv)
    → take (length r.payload) (drop (length xs + tlv_header_size) (xs ++ (encode r ++ ys)))
      ≡ r.payload
payload_bytes_at xs ys r =
    let behind : length xs + tlv_header_size ≡ length (xs ++ tlv_header r) =
      omega (arith, length-append xs (tlv_header r)) in
    let zeros = replicate {A = ℕ} (tlv_padding r) 0 in
    let laid_out : xs ++ (encode r ++ ys) ≡ xs ++ tlv_header r ++ (r.payload ++ (zeros ++ ys)) =
      ap (λ l. xs ++ (tlv_header r ++ l)) (append_assoc r.payload zeros ys)
      ∙ sym (append_assoc xs (tlv_header r) (r.payload ++ (zeros ++ ys))) in
    ap₂ (λ l n. take (length r.payload) (drop n l)) laid_out behind
    ∙ ap (take (length r.payload)) (drop-append (xs ++ tlv_header r) (r.payload ++ (zeros ++ ys)))
    ∙ take-append r.payload (zeros ++ ys)

-- The record of an index, where the loop finds it.
pub record IsAt (p : List ℕ) (total index start : ℕ) (r : Tlv) : Type 0 where
  pub at : ℕ
  pub skipped : skip_records p total index start ≡ value at
  pub read : record_at_offset p total at ≡ value (view_at at r)
  pub payload : take (length r.payload) (drop (at + tlv_header_size) p) ≡ r.payload

module _ (ys : List ℕ) (total : ℕ) (small : total < 2 ^ 32) where
  pub skip-encode :
      (xs : List ℕ) (recs : List Tlv) (index : ℕ) (r : Tlv)
      → total ≡ length xs + length (encode_all recs)
      → AreOpenable recs
      → get_elem? recs index ≡ some r
      → IsAt (xs ++ (encode_all recs ++ ys)) total index (length xs) r
  skip-encode xs [] index r size openable found = absurd cc
  skip-encode xs (s ∷ rs) zero r size openable found =
      let sizes = length-encode_all s rs in
      let same : s ≡ r = cc in
      subst (IsAt (xs ++ (encode_all (s ∷ rs) ++ ys)) total 0 (length xs)) same (record {
        at = length xs;
        skipped = unfold skip_records in refl;
        read =
            ap (λ q. record_at_offset q total (length xs)) (next_buffer xs ys s rs)
            ∙ record_at_offset-encode xs (encode_all rs ++ ys) s total (omega arith) small
                openable.0.0;
        payload =
            ap (λ q. take (length s.payload) (drop (length xs + tlv_header_size) q))
              (next_buffer xs ys s rs)
            ∙ payload_bytes_at xs (encode_all rs ++ ys) s;
      })
  skip-encode xs (s ∷ rs) (suc index) r size openable found =
      let sizes = length-encode_all s rs in
      let p = xs ++ (encode s ++ (encode_all rs ++ ys)) in
      let next : u32 (length xs + tlv_size s) ≡ length (xs ++ encode s) =
        omega (arith, length-append xs (encode s), length-encode s) in
      let i =
        skip-encode (xs ++ encode s) rs index r
          (omega (arith, length-append xs (encode s), length-encode s)) openable.1 found in
      let back = next_buffer xs ys s rs ∙ passed_buffer xs ys s rs in
      record {
        at = i.at;
        skipped =
            ap (λ q. skip_records q total (suc index) (length xs)) (next_buffer xs ys s rs)
            ∙ skip_step p total index (length xs) (view_at (length xs) s) (
                record_at_offset-encode xs (encode_all rs ++ ys) s total (omega arith) small
                  openable.0.0)
            ∙ ap₂ (λ q n. skip_records q total index n) (passed_buffer xs ys s rs) next
            ∙ i.skipped;
        read = ap (λ q. record_at_offset q total i.at) back ∙ i.read;
        payload =
            ap (λ q. take (length r.payload) (drop (i.at + tlv_header_size) q)) back ∙ i.payload;
      }
