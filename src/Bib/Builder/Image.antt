-- ===== src/Bib/Builder/Image.antt =====
-- What the builder's writes make of the buffer: the laid out header, then the encoded records.
use atarix.Prelude.{
  ℕ, zero, suc, ◌+◌, ◌-◌, ◌≤◌, ◌≡◌, refl, sym, ap, ◌∙◌, false, not, List, [], ◌∷◌, ◌++◌, length,
  length-append, replicate, length-replicate, take, take_all, set, set-append, drop, drop-replicate,
  append_assoc, ◌==◌, arith, if◌then◌else◌,
}
use atarix.Bib.Format.{header_size}
use atarix.Bib.Bytes.{write_bytes, write_le16, write_le32, write_le64, le16, le32}
use atarix.Bib.Layout.{Tlv, HeaderWords, tlv_size, tlv_padding, tlv_header, encode, header_bytes}
use atarix.Bib.Builder.{write_header, write_record, seal_buffer, crc32c}

-- A write behind a prefix, and a write over the start.
pub write_bytes-append :
    (xs ys : List ℕ) (i : ℕ) (bytes : List ℕ)
    → write_bytes (xs ++ ys) (length xs + i) bytes ≡ xs ++ write_bytes ys i bytes
unfolding write_bytes
write_bytes-append xs ys i [] = refl
write_bytes-append xs ys i (b ∷ bytes) =
    let e : suc (length xs + i) ≡ length xs + suc i = omega arith in
    rw (set-append xs ys i b, e) (write_bytes-append xs (set ys i b) (suc i) bytes)

pub write_bytes-front :
    (ys bytes : List ℕ)
    → length bytes ≤ length ys
    → write_bytes ys 0 bytes ≡ bytes ++ drop (length bytes) ys
unfolding write_bytes
write_bytes-front ys [] h = refl
write_bytes-front [] (b ∷ bytes) h = absurd (omega arith)
write_bytes-front (y ∷ ys) (b ∷ bytes) h =
    write_bytes-append (b ∷ []) ys 0 bytes
    ∙ ap (λ l. b ∷ l) (write_bytes-front ys bytes (omega arith))

write_le16-append :
    (xs ys : List ℕ) (i v : ℕ) → write_le16 (xs ++ ys) (length xs + i) v ≡ xs ++ write_le16 ys i v
unfolding write_le16
write_le16-append xs ys i v = write_bytes-append xs ys i (le16 v)

write_le32-append :
    (xs ys : List ℕ) (i v : ℕ) → write_le32 (xs ++ ys) (length xs + i) v ≡ xs ++ write_le32 ys i v
unfolding write_le32
write_le32-append xs ys i v = write_bytes-append xs ys i (le32 v)

zeros_split : (k n : ℕ) → replicate {A = ℕ} (k + n) 0 ≡ replicate k 0 ++ replicate n 0
zeros_split zero n = ap (λ m. replicate m 0) (omega arith)
zeros_split (suc k) n =
    let e : suc k + n ≡ suc (k + n) = omega arith in rw e (ap (λ l. 0 ∷ l) (zeros_split k n))

-- The header over zeroed bytes.
pub write_header-eq :
    (p : List ℕ) (capacity : ℕ) (h : HeaderWords)
    → header_size ≤ capacity
    → capacity ≤ length p
    → write_header p capacity h.flags h.boot_id h.producer_id h.created_counter
      ≡ header_bytes h 0 0 0 ++ (replicate (capacity - header_size) 0 ++ drop capacity p)
unfolding write_header write_le16 write_le32 write_le64 write_bytes
write_header-eq p capacity h room fits =
    let sizes : length (replicate {A = ℕ} capacity 0) ≡ capacity = length-replicate capacity 0 in
    let cleared : write_bytes p 0 (replicate capacity 0)
        ≡ replicate 64 0 ++ (replicate (capacity - header_size) 0 ++ drop capacity p) =
      write_bytes-front p (replicate capacity 0) (omega arith)
      ∙ ap (λ n. replicate capacity 0 ++ drop n p) sizes
      ∙ ap (λ l. l ++ drop capacity p)
          (ap (λ n. replicate n 0) (omega arith) ∙ zeros_split 64 (capacity - header_size))
      ∙ append_assoc (replicate 64 0) (replicate (capacity - header_size) 0) (drop capacity p) in
    rw cleared refl

-- The four words of a record's header behind a prefix, and over zeros.
words_behind :
    (xs ys : List ℕ) (a b c d : ℕ)
    → write_le32
        (write_le32
          (write_le16 (write_le16 (xs ++ ys) (length xs + 0) a) (length xs + 2) b)
          (length xs + 4)
          c)
        (length xs + 8)
        d
      ≡ xs ++ write_le32 (write_le32 (write_le16 (write_le16 ys 0 a) 2 b) 4 c) 8 d
words_behind xs ys a b c d =
    let y1 = write_le16 ys 0 a in
    let y2 = write_le16 y1 2 b in
    let y3 = write_le32 y2 4 c in
    rw
      (
        write_le16-append xs ys 0 a,
        write_le16-append xs y1 2 b,
        write_le32-append xs y2 4 c,
        write_le32-append xs y3 8 d,
      )
      refl

tlv_header_written :
    (tail : List ℕ) (r : Tlv)
    → write_le32
        (write_le32
          (write_le16 (write_le16 (replicate 16 0 ++ tail) 0 r.type) 2 r.flags)
          4
          (tlv_size r))
        8
        (length r.payload)
      ≡ tlv_header r ++ tail
unfolding write_le16 write_le32 write_bytes
tlv_header_written tail r = refl

-- The payload, over zeros; nothing is written if there is none.
payload_written :
    (xs tail payload : List ℕ) (k : ℕ)
    → (if not (length payload == 0)
        then write_bytes
            (xs ++ (replicate (length payload + k) 0 ++ tail))
            (length xs)
            (take (length payload) payload)
        else xs ++ (replicate (length payload + k) 0 ++ tail))
      ≡ xs ++ (payload ++ (replicate k 0 ++ tail))
payload_written xs tail [] k =
    let e : length {A = ℕ} [] + k ≡ k = omega arith in ap (λ n. xs ++ (replicate n 0 ++ tail)) e
payload_written xs tail (b ∷ bytes) k =
    let payload = b ∷ bytes in
    let zeros = replicate {A = ℕ} (length payload + k) 0 ++ tail in
    let start : length xs ≡ length xs + 0 = omega arith in
    let room : length payload ≤ length zeros = omega (
      arith,
      length-append (replicate {A = ℕ} (length payload + k) 0) tail,
      length-replicate {A = ℕ} (length payload + k) 0,
    ) in
    let some_payload : (length payload == 0) ≡ false = ground arith in
    rw (some_payload, take_all payload, start)
      (write_bytes-append xs zeros 0 payload
        ∙ ap (λ l. xs ++ l)
            (write_bytes-front zeros payload room
              ∙ ap (λ l. payload ++ l) (drop-replicate (length payload) k 0 tail)))

-- A record over whatever stands behind the ones before it.
pub write_record-eq :
    (xs ys : List ℕ) (r : Tlv)
    → tlv_size r ≤ length ys
    → write_record (xs ++ ys) (length xs) (tlv_size r) r.type r.flags r.payload (length r.payload)
      ≡ xs ++ (encode r ++ drop (tlv_size r) ys)
unfolding write_record
write_record-eq xs ys r fits =
    let n = tlv_size r in
    let len = length r.payload in
    let tail = drop n ys in
    let zeros = replicate {A = ℕ} (len + tlv_padding r) 0 ++ tail in
    let start : length xs ≡ length xs + 0 = omega arith in
    let sizes : length (replicate {A = ℕ} n 0) ≡ n = length-replicate n 0 in
    let split : n ≡ 16 + (len + tlv_padding r) = omega arith in
    let cleared : write_bytes (xs ++ ys) (length xs) (replicate n 0)
        ≡ xs ++ (replicate 16 0 ++ zeros) =
      ap (λ i. write_bytes (xs ++ ys) i (replicate n 0)) start
      ∙ write_bytes-append xs ys 0 (replicate n 0)
      ∙ ap (λ l. xs ++ l)
          (write_bytes-front ys (replicate n 0) (omega arith)
            ∙ ap (λ i. replicate n 0 ++ drop i ys) sizes
            ∙ ap (λ l. l ++ tail)
                (ap (λ i. replicate i 0) split ∙ zeros_split 16 (len + tlv_padding r))
            ∙ append_assoc (replicate 16 0) (replicate (len + tlv_padding r) 0) tail) in
    let behind : length xs + 16 ≡ length (xs ++ tlv_header r) =
      omega (arith, length-append xs (tlv_header r)) in
    rw
      (
        cleared,
        words_behind xs (replicate 16 0 ++ zeros) r.type r.flags n len,
        tlv_header_written zeros r,
        behind,
        ← append_assoc xs (tlv_header r) zeros,
      )
      (payload_written (xs ++ tlv_header r) tail r.payload (tlv_padding r)
        ∙ append_assoc xs (tlv_header r) (r.payload ++ (replicate (tlv_padding r) 0 ++ tail))
        ∙ ap (λ l. xs ++ (tlv_header r ++ l))
            (sym (append_assoc r.payload (replicate (tlv_padding r) 0) tail)))

pub seal_buffer-eq :
    (h : HeaderWords) (body : List ℕ) (n count : ℕ)
    → seal_buffer (header_bytes h 0 0 0 ++ body) n count
      ≡ header_bytes h n (crc32c (header_bytes h n 0 count ++ body) n) count ++ body
unfolding seal_buffer write_le32 write_bytes
seal_buffer-eq h body n count = refl
