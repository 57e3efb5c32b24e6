-- ===== src/Tools/Mkdiscovery/Checksums.antt =====
-- The checksums that mkdiscovery writes are the ones that discovery_validate.c looks for.
use native.Mathlib.Decide.{dec_lt}
use atarix.Prelude.{
  ℕ, zero, suc, ◌+◌, ◌-◌, ◌/◌, ◌%◌, ◌^◌, ◌≤◌, ◌<◌, ◌≡◌, refl, sym, ap, ap₂, ◌∙◌, subst, true, false,
  List, [], ◌∷◌, ◌++◌, take, length, length-append, length-take, length-drop, drop, drop-append,
  take-behind, take-take, take-drop, drop-drop, append_assoc, ltb, ◌==◌, arith, bit_and, bit_xor,
}
use atarix.Prelude.Outcome.{value, read_le32}
use atarix.Prelude.Outcome.Loads.{read_le32-append, read_le32-front, join32}
use atarix.Bib.Bytes.{write_bytes, write_le32, le32}
use atarix.Bib.Builder.Image.{write_bytes-append, write_bytes-front}
use atarix.Discovery.Format.{DiscoveryResult, header_size}
use atarix.Discovery.Validate
use atarix.Discovery.Validate.{zero_word, image_copy_size, first_bytes, image_crc_valid, crc_valid}
use atarix.Tools.Mkdiscovery.{crc32_bits, crc32_update, crc32_iso_hdlc, patch_crc32}

bits-eq : (n crc : ℕ) → crc32_bits n crc ≡ Validate.crc32_bits n crc
unfolding crc32_bits Validate.crc32_bits
bits-eq zero crc = refl
bits-eq (suc n) crc =
    bits-eq n (bit_xor (crc / 2) (bit_and 0xEDB88320 ((2 ^ 32 - bit_and crc 1) % 2 ^ 32)))

update-eq : (crc : ℕ) (bytes : List ℕ) → crc32_update crc bytes ≡ Validate.crc32_update crc bytes
unfolding crc32_update Validate.crc32_update
update-eq crc [] = refl
update-eq crc (b ∷ bytes) =
    ap (λ c. crc32_update c bytes) (bits-eq 8 (bit_xor crc b))
    ∙ update-eq (Validate.crc32_bits 8 (bit_xor crc b)) bytes

-- The tool's checksum is the validator's.
crc32-eq :
    (bytes : List ℕ) (n : ℕ) → crc32_iso_hdlc bytes n ≡ Validate.crc32_iso_hdlc (take n bytes)
unfolding crc32_iso_hdlc Validate.crc32_iso_hdlc
crc32-eq bytes n = ap (λ c. 2 ^ 32 - 1 - c) (update-eq 0xFFFFFFFF (take n bytes))

crc32-lt : (bytes : List ℕ) → Validate.crc32_iso_hdlc bytes < 2 ^ 32
unfolding Validate.crc32_iso_hdlc
crc32-lt bytes = omega arith

-- A word written over one that stands behind a prefix.
word_over :
    (xs word ys : List ℕ) (at v : ℕ)
    → length xs ≡ at
    → length word ≡ 4
    → write_bytes (xs ++ (word ++ ys)) at (le32 v) ≡ xs ++ (le32 v ++ ys)
word_over xs word ys at v e four =
    let start : at ≡ length xs + 0 = omega arith in
    ap (λ n. write_bytes (xs ++ (word ++ ys)) n (le32 v)) start
    ∙ write_bytes-append xs (word ++ ys) 0 (le32 v)
    ∙ ap (λ l. xs ++ l)
        (write_bytes-front (word ++ ys) (le32 v) (omega (arith, length-append word ys))
          ∙ ap (λ l. le32 v ++ l) (ap (λ n. drop n (word ++ ys)) (sym four) ∙ drop-append word ys))

-- The two checksum words of an image: that of the header is taken with both words zeroed, that of the
-- image's first `n` bytes with its own word zeroed.
abbrev pub HasChecksums : List ℕ → ℕ → Type 0
HasChecksums image n =
    (read_le32 {E = DiscoveryResult} image 24
      ≡ value
          (Validate.crc32_iso_hdlc (take header_size (write_le32 (write_le32 image 24 0) 28 0))))
    × (read_le32 {E = DiscoveryResult} image 28
        ≡ value (Validate.crc32_iso_hdlc (take n (write_le32 image 28 0))))

-- An image in its parts: 24 bytes of header, two checksums, and the records.
abbrev parts : List ℕ → List ℕ → List ℕ → List ℕ → List ℕ
parts xs a b ys = xs ++ (a ++ (b ++ ys))

module _ (xs : List ℕ) (size : length xs ≡ 24) where
  first_written :
      (a b ys : List ℕ) (v : ℕ)
      → length a ≡ 4
      → write_bytes (parts xs a b ys) 24 (le32 v) ≡ parts xs (le32 v) b ys
  first_written a b ys v four = word_over xs a (b ++ ys) 24 v size four

  second_written :
      (a b ys : List ℕ) (v : ℕ)
      → length a ≡ 4
      → length b ≡ 4
      → write_bytes (parts xs a b ys) 28 (le32 v) ≡ parts xs a (le32 v) ys
  second_written a b ys v four four' =
      ap (λ l. write_bytes l 28 (le32 v)) (sym (append_assoc xs a (b ++ ys)))
      ∙ word_over (xs ++ a) b ys 28 v (omega (arith, length-append xs a)) four'
      ∙ append_assoc xs a (le32 v ++ ys)

  take-parts :
      (a b ys : List ℕ) (k : ℕ)
      → length a ≡ 4
      → length b ≡ 4
      → take (32 + k) (parts xs a b ys) ≡ parts xs a b (take k ys)
  take-parts a b ys k four four' =
      let n : 32 + k ≡ length xs + (length a + (length b + k)) = omega arith in
      ap (λ i. take i (parts xs a b ys)) n
      ∙ take-behind xs (a ++ (b ++ ys)) (length a + (length b + k))
      ∙ ap (λ l. xs ++ l)
          (take-behind a (b ++ ys) (length b + k) ∙ ap (λ l. a ++ l) (take-behind b ys k))

  first_read :
      (v : ℕ) (b ys : List ℕ)
      → v < 2 ^ 32
      → read_le32 {E = DiscoveryResult} (parts xs (le32 v) b ys) 24 ≡ value v
  unfolding read_le32
  first_read v b ys small =
      let at : 24 ≡ length xs + 0 = omega arith in
      ap (λ i. read_le32 (parts xs (le32 v) b ys) i) at
      ∙ read_le32-append xs (le32 v ++ (b ++ ys)) 0
      ∙ ap value (join32 v small)

  second_read :
      (u v : ℕ) (ys : List ℕ)
      → v < 2 ^ 32
      → read_le32 {E = DiscoveryResult} (parts xs (le32 u) (le32 v) ys) 28 ≡ value v
  unfolding read_le32
  second_read u v ys small =
      let at : 28 ≡ length xs + 4 = omega arith in
      ap (λ i. read_le32 (parts xs (le32 u) (le32 v) ys) i) at
      ∙ read_le32-append xs (le32 u ++ (le32 v ++ ys)) 4
      ∙ ap value (join32 v small)

  abbrev header_crc : List ℕ → ℕ
  header_crc ys = Validate.crc32_iso_hdlc (take 32 (parts xs zero_word zero_word ys))

  abbrev image_crc : List ℕ → ℕ → ℕ
  image_crc ys n = Validate.crc32_iso_hdlc (take n (parts xs (le32 (header_crc ys)) zero_word ys))

  abbrev patched : List ℕ → ℕ → List ℕ
  patched ys n = parts xs (le32 (header_crc ys)) (le32 (image_crc ys n)) ys

  patch_crc32-eq :
      (a b ys : List ℕ) (n : ℕ)
      → length a ≡ 4
      → length b ≡ 4
      → patch_crc32 (parts xs a b ys) n ≡ patched ys n
  unfolding patch_crc32 write_le32
  patch_crc32-eq a b ys n four four' =
      rw
        (
          first_written a b ys 0 four,
          second_written (le32 0) b ys 0 refl four',
          crc32-eq (parts xs zero_word zero_word ys) 32,
          first_written (le32 0) (le32 0) ys (header_crc ys) refl,
          crc32-eq (parts xs (le32 (header_crc ys)) zero_word ys) n,
          second_written (le32 (header_crc ys)) (le32 0) ys (image_crc ys n) refl refl,
        )
        refl

  -- The validator's copy of the image.
  image_crc_valid-parts :
      (a b ys : List ℕ) (n k : ℕ)
      → length a ≡ 4
      → length b ≡ 4
      → n ≤ 32 + k
      → 32 + k ≤ length (parts xs a b ys)
      → image_crc_valid
          (parts xs a b ys)
          (32 + k)
          n
          (Validate.crc32_iso_hdlc (take n (parts xs a zero_word ys)))
        ≡ value true
  unfolding image_crc_valid first_bytes
  image_crc_valid-parts a b ys n k four four' within inside =
      elim (dec_lt image_copy_size (32 + k)) [
        | yes large ↦ let test : ltb image_copy_size (32 + k) ≡ true = ground arith in rw test refl
        | no fits ↦
            let test : ltb image_copy_size (32 + k) ≡ false = ground arith in
            let whole : ltb (length (parts xs a b ys)) (32 + k) ≡ false = ground arith in
            let sizes : length (parts xs a b ys) ≡ 32 + length ys = omega (
              arith,
              length-append xs (a ++ (b ++ ys)),
              length-append a (b ++ ys),
              length-append b ys,
            ) in
            let copied : length (parts xs a zero_word (take k ys)) ≡ 32 + k = omega (
              arith,
              length-append xs (a ++ (zero_word ++ take k ys)),
              length-append a (zero_word ++ take k ys),
              length-take k ys,
            ) in
            let enough : ltb (length (parts xs a zero_word (take k ys))) n ≡ false = ground arith in
            let cut : take n (parts xs a zero_word (take k ys)) ≡ take n (parts xs a zero_word ys) =
              ap (take n) (sym (take-parts a zero_word ys k four refl))
              ∙ take-take n (32 + k) (parts xs a zero_word ys) within in
            let same : (Validate.crc32_iso_hdlc (take n (parts xs a zero_word ys))
                  == Validate.crc32_iso_hdlc (take n (parts xs a zero_word ys)))
                ≡ true =
              ground arith in
            rw
              (
                test,
                whole,
                take-parts a b ys k four four',
                second_written a b (take k ys) 0 four four',
                enough,
                cut,
                same,
              )
              refl
      ]

  crc_valid-patched :
      (ys : List ℕ) (n k : ℕ)
      → read_le32 {E = DiscoveryResult} xs 8 ≡ value n
      → n ≤ 32 + k
      → 32 + k ≤ length (patched ys n)
      → crc_valid (patched ys n) (32 + k) ≡ value true
  unfolding crc_valid first_bytes
  crc_valid-patched ys n k total within inside =
      let hc = header_crc ys in
      let ic = image_crc ys n in
      let whole : ltb (length (patched ys n)) 32 ≡ false = ground arith in
      let header : take 32 (patched ys n) ≡ parts xs (le32 hc) (le32 ic) [] =
        take-parts (le32 hc) (le32 ic) ys 0 refl refl in
      let blank : take 32 (parts xs zero_word zero_word ys) ≡ parts xs zero_word zero_word [] =
        take-parts zero_word zero_word ys 0 refl refl in
      let same : (Validate.crc32_iso_hdlc (parts xs zero_word zero_word []) == hc) ≡ true =
        rw (← blank) (ground arith) in
      let total_read : read_le32 {E = DiscoveryResult} (patched ys n) 8 ≡ value n =
        read_le32-front xs (le32 hc ++ (le32 ic ++ ys)) 8 (omega arith) ∙ total in
      rw
        (
          first_read hc (le32 ic) ys (crc32-lt (take 32 (parts xs zero_word zero_word ys))),
          second_read hc ic ys (crc32-lt (take n (parts xs (le32 hc) zero_word ys))),
          whole,
          header,
          first_written (le32 hc) (le32 ic) [] 0 refl,
          second_written zero_word (le32 ic) [] 0 refl refl,
          same,
          total_read,
        )
        (image_crc_valid-parts (le32 hc) (le32 ic) ys n k refl refl within inside)

  patched-HasChecksums : (ys : List ℕ) (n : ℕ) → HasChecksums (patched ys n) n
  unfolding write_le32
  patched-HasChecksums ys n =
      let hc = header_crc ys in
      let ic = image_crc ys n in
      let unsealed = second_written (le32 hc) (le32 ic) ys 0 refl refl in
      let cleared =
        ap (λ l. write_bytes l 28 (le32 0)) (first_written (le32 hc) (le32 ic) ys 0 refl)
        ∙ second_written (le32 0) (le32 ic) ys 0 refl refl in
      (
        first_read hc (le32 ic) ys (crc32-lt (take 32 (parts xs zero_word zero_word ys)))
            ∙ ap (λ l. value (Validate.crc32_iso_hdlc (take 32 l))) (sym cleared),
        second_read hc ic ys (crc32-lt (take n (parts xs (le32 hc) zero_word ys)))
            ∙ ap (λ l. value (Validate.crc32_iso_hdlc (take n l))) (sym unsealed),
      )

-- The parts of any image that holds a header.
in_parts :
    (image : List ℕ)
    → 32 ≤ length image
    → image
      ≡ parts (take 24 image) (take 4 (drop 24 image)) (take 4 (drop 28 image)) (drop 32 image)
in_parts image h =
    let third : drop 28 image ≡ take 4 (drop 28 image) ++ drop 32 image =
      sym (take-drop 4 (drop 28 image))
      ∙ ap (λ l. take 4 (drop 28 image) ++ l) (drop-drop 4 28 image) in
    let second : drop 24 image ≡ take 4 (drop 24 image) ++ drop 28 image =
      sym (take-drop 4 (drop 24 image))
      ∙ ap (λ l. take 4 (drop 24 image) ++ l) (drop-drop 4 24 image) in
    sym (take-drop 24 image)
    ∙ ap (λ l. take 24 image ++ l) (second ∙ ap (λ l. take 4 (drop 24 image) ++ l) third)

-- Whatever bytes an image has, once `patch_crc32` has been over it for the length in its header,
-- its first checksum word holds the checksum of the header with both words zeroed, its second
-- that of the first bytes up to this length with the second word zeroed, and the validator's
-- comparisons of checksums pass, for any size from this length and the header's 32 bytes on that
-- the image has. docs/discovery-rom-format-v1.md has the header's checksum taken with only its
-- own word zeroed, and of an image over 512 bytes the validator does not compare the second word.
pub crc_valid-patch_crc32 :
    (image : List ℕ) (n image_size : ℕ)
    → read_le32 {E = DiscoveryResult} image 8 ≡ value n
    → header_size ≤ image_size
    → n ≤ image_size
    → image_size ≤ length image
    → HasChecksums (patch_crc32 image n) n
      × (crc_valid (patch_crc32 image n) image_size ≡ value true)
crc_valid-patch_crc32 image n image_size total room within inside =
    let xs = take 24 image in
    let a = take 4 (drop 24 image) in
    let b = take 4 (drop 28 image) in
    let ys = drop 32 image in
    let size : length xs ≡ 24 = omega (arith, length-take 24 image) in
    let four : length a ≡ 4 = omega (arith, length-take 4 (drop 24 image), length-drop 24 image) in
    let four' : length b ≡ 4 = omega (arith, length-take 4 (drop 28 image), length-drop 28 image) in
    let split = in_parts image (omega arith) in
    let k_is : image_size ≡ 32 + (image_size - 32) = omega arith in
    let total_of : read_le32 {E = DiscoveryResult} xs 8 ≡ value n =
      sym (read_le32-front xs (a ++ (b ++ ys)) 8 (omega arith))
      ∙ ap (λ l. read_le32 l 8) (sym split)
      ∙ total in
    let whole : 32 + (image_size - 32) ≤ length (patched xs size ys n) = omega (
      arith,
      length-append xs (le32 (header_crc xs size ys) ++ (le32 (image_crc xs size ys n) ++ ys)),
      length-drop 32 image,
    ) in
    let result : patch_crc32 image n ≡ patched xs size ys n =
      ap (λ l. patch_crc32 l n) split ∙ patch_crc32-eq xs size a b ys n four four' in
    (
      subst (λ l. HasChecksums l n) (sym result) (patched-HasChecksums xs size ys n),
      ap₂ (λ l m. crc_valid l m) result k_is
          ∙ crc_valid-patched xs size ys n (image_size - 32) total_of (omega arith) whole,
    )
