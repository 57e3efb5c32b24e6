-- ===== src/Bib/Builder/Records.antt =====
-- A block under construction, compared with the records that were added to it.
use native.Mathlib.Decide.{dec_lt}
use atarix.Prelude.{
  ℕ, ◌+◌, ◌-◌, ◌*◌, ◌≤◌, ◌≡◌, refl, sym, ap, ◌∙◌, subst, true, Option, none, some, List, [], ◌∷◌,
  ◌++◌, length, length-append, replicate, length-replicate, length-drop, drop, append_assoc,
  append_nil, arith,
}
use atarix.Prelude.Word.{u32}
use atarix.Bib.Format.{header_size, tlv_header_size, tlv_flags_are_known, header_flags_are_known}
use atarix.Bib.Layout.{Tlv, HeaderWords, tlv_size, encode, encode_all, header_bytes, length-encode}
use atarix.Bib.Builder.{
  BuilderResult, ok, BibBuilder, u32_max, align8_u32, write_record, append_record, add_tlv_to,
  add_tlv, builder_init, builder_add_tlv, builder_seal, seal_buffer, seal_with, crc32c, kept,
}
use atarix.Bib.Builder.Laws.{align8-eq, init_ok, some_injective}
use atarix.Bib.Builder.Image.{write_header-eq, write_record-eq, seal_buffer-eq}

-- A block that was initialised with these words, and to which these records were added one by one.
pub data Building (h : HeaderWords) : List Tlv → BibBuilder → Type 0 where
  init :
      {b : BibBuilder} (old : BibBuilder) (p : List ℕ) (capacity : ℕ)
      → capacity ≤ length p
      → builder_init (some old) (some p) capacity h.flags h.boot_id h.producer_id h.created_counter
        ≡ (ok, some b)
      → Building h [] b
  add :
      {recs : List Tlv} {b after : BibBuilder} (r : Tlv)
      → Building h recs b
      → builder_add_tlv (some b) r.type r.flags (some r.payload) (length r.payload)
        ≡ (ok, some after)
      → Building h (recs ++ r ∷ []) after

abbrev pub HaveKnownFlags : List Tlv → Type 0
HaveKnownFlags [] = Unit
HaveKnownFlags (r ∷ rs) = (tlv_flags_are_known r.flags ≡ true) × HaveKnownFlags rs

HaveKnownFlags-append :
    (xs ys : List Tlv) → HaveKnownFlags xs → HaveKnownFlags ys → HaveKnownFlags (xs ++ ys)
HaveKnownFlags-append [] ys hx hy = hy
HaveKnownFlags-append (x ∷ xs) ys hx hy = (hx.0, HaveKnownFlags-append xs ys hx.1 hy)

-- Its buffer is the header with zero counts, the encoded records, and bytes not yet used.
pub record Holds (h : HeaderWords) (recs : List Tlv) (b : BibBuilder) : Type 0 where
  pub rest : List ℕ
  pub buffer : b.buffer ≡ some (header_bytes h 0 0 0 ++ (encode_all recs ++ rest))
  pub used : b.length ≡ header_size + length (encode_all recs)
  pub room : b.capacity ≤ b.length + length rest
  pub within : b.length ≤ b.capacity
  pub capacity : b.capacity ≤ u32_max
  pub count : b.tlv_count ≡ length recs
  pub counted : header_size + tlv_header_size * b.tlv_count ≤ b.length
  pub flags : header_flags_are_known h.flags ≡ true
  pub known : HaveKnownFlags recs

encode_all_snoc : (xs : List Tlv) (r : Tlv) → encode_all (xs ++ r ∷ []) ≡ encode_all xs ++ encode r
unfolding encode_all
encode_all_snoc [] r = append_nil (encode r)
encode_all_snoc (x ∷ xs) r =
    ap (λ l. encode x ++ l) (encode_all_snoc xs r)
    ∙ sym (append_assoc (encode x) (encode_all xs) (encode r))

init_flags :
    (old b : BibBuilder) (p : List ℕ) (capacity flags boot producer counter : ℕ)
    → builder_init (some old) (some p) capacity flags boot producer counter ≡ (ok, some b)
    → header_flags_are_known flags ≡ true
unfolding builder_init
init_flags old b p capacity flags boot producer counter h = ground arith

-- An addition that was accepted.
appended_ok :
    (b after : BibBuilder) (p : List ℕ) (r : Tlv)
    → append_record b p r.type r.flags r.payload (length r.payload) (some (tlv_size r))
      ≡ (ok, after)
    → (tlv_size r ≤ b.capacity - b.length)
      × (after ≡ record b {
        buffer =
            some (write_record p b.length (tlv_size r) r.type r.flags r.payload (length r.payload));
        length = u32 (b.length + tlv_size r);
        tlv_count = u32 (b.tlv_count + 1);
      })
unfolding append_record
appended_ok b after p r h = ground arith

unaligned :
    (b after : BibBuilder) (p : List ℕ) (r : Tlv)
    → append_record b p r.type r.flags r.payload (length r.payload) none ≡ (ok, after)
    → ⊥
unfolding append_record
unaligned b after p r e = ground arith

aligned_ok :
    (b after : BibBuilder) (p : List ℕ) (r : Tlv)
    → length r.payload ≤ u32_max - tlv_header_size
    → append_record b p r.type r.flags r.payload
        (length r.payload)
        (align8_u32 (u32 (tlv_header_size + length r.payload)))
      ≡ (ok, after)
    → append_record b p r.type r.flags r.payload (length r.payload) (some (tlv_size r))
      ≡ (ok, after)
aligned_ok b after p r short h = elim (dec_lt (u32_max - 7) (tlv_header_size + length r.payload)) [
  | yes long ↦
      let refused : align8_u32 (u32 (tlv_header_size + length r.payload)) ≡ none =
        unfold align8_u32 in ground arith in
      absurd (unaligned b after p r (rw (← refused) h))
  | no fits ↦
      let value_is : u32 (tlv_header_size + length r.payload) ≡ tlv_header_size + length r.payload =
        omega arith in
      rw (← align8-eq (tlv_header_size + length r.payload) (omega arith), ← value_is) h
]

add_to_ok :
    (b after : BibBuilder) (p : List ℕ) (r : Tlv)
    → add_tlv_to b (some p) r.type r.flags (some r.payload) (length r.payload) ≡ (ok, after)
    → (tlv_flags_are_known r.flags ≡ true)
      × (length r.payload ≤ u32_max - tlv_header_size)
      × (append_record b p r.type r.flags r.payload
            (length r.payload)
            (align8_u32 (u32 (tlv_header_size + length r.payload)))
          ≡ (ok, after))
add_to_ok b after p r h = ground arith

add_is :
    (b after : BibBuilder) (r : Tlv) (result : BuilderResult)
    → builder_add_tlv (some b) r.type r.flags (some r.payload) (length r.payload)
      ≡ (result, some after)
    → add_tlv_to b b.buffer r.type r.flags (some r.payload) (length r.payload) ≡ (result, after)
unfolding builder_add_tlv add_tlv
add_is b after r result h =
    kept_is (add_tlv_to b b.buffer r.type r.flags (some r.payload) (length r.payload)) h
  where
    kept_is : (x : BuilderResult × BibBuilder) → kept x ≡ (result, some after) → x ≡ (result, after)
    kept_is (result', b') e = cc

added-Holds :
    (h : HeaderWords) (recs : List Tlv) (b after : BibBuilder) (r : Tlv)
    → Holds h recs b
    → builder_add_tlv (some b) r.type r.flags (some r.payload) (length r.payload) ≡ (ok, some after)
    → Holds h (recs ++ r ∷ []) after
added-Holds h recs b after r i added =
    let p = header_bytes h 0 0 0 ++ (encode_all recs ++ i.rest) in
    let body = header_bytes h 0 0 0 ++ encode_all recs in
    let to = add_is b after r ok added in
    let (known, short, aligned) = add_to_ok b after p r (
      subst (λ q. add_tlv_to b q r.type r.flags (some r.payload) (length r.payload) ≡ (ok, after))
        i.buffer to) in
    let (fits, made) = appended_ok b after p r (aligned_ok b after p r short aligned) in
    let at : b.length ≡ length body = omega (arith, i.used) in
    let written : write_record p b.length (tlv_size r) r.type r.flags r.payload (length r.payload)
        ≡ header_bytes h 0 0 0 ++ (encode_all (recs ++ r ∷ []) ++ drop (tlv_size r) i.rest) =
      ap (λ n. write_record p n (tlv_size r) r.type r.flags r.payload (length r.payload)) at
      ∙ ap
          (λ q.
            write_record q (length body) (tlv_size r) r.type r.flags r.payload (length r.payload))
          (sym (append_assoc (header_bytes h 0 0 0) (encode_all recs) i.rest))
      ∙ write_record-eq body i.rest r (omega (arith, i.room))
      ∙ append_assoc (header_bytes h 0 0 0) (encode_all recs) (encode r ++ drop (tlv_size r) i.rest)
      ∙ ap (λ l. header_bytes h 0 0 0 ++ l)
          (sym (append_assoc (encode_all recs) (encode r) (drop (tlv_size r) i.rest))
            ∙ ap (λ l. l ++ drop (tlv_size r) i.rest) (sym (encode_all_snoc recs r))) in
    subst (Holds h (recs ++ r ∷ [])) (sym made) (record {
      rest = drop (tlv_size r) i.rest;
      buffer = ap some written;
      used = omega (
        arith,
        i.used,
        i.within,
        i.capacity,
        ap (λ l. length l) (encode_all_snoc recs r),
        length-append (encode_all recs) (encode r),
        length-encode r,
      );
      room = omega (arith, i.room, length-drop (tlv_size r) i.rest, i.within, i.capacity);
      within = omega (arith, i.within, i.capacity);
      capacity = i.capacity;
      count = omega (arith, i.count, i.counted, i.within, i.capacity, length-append recs (r ∷ []));
      counted = omega (arith, i.within, i.capacity, i.counted);
      flags = i.flags;
      known = HaveKnownFlags-append recs (r ∷ []) i.known (known, tt);
    })

init-Holds :
    (h : HeaderWords) (old b : BibBuilder) (p : List ℕ) (capacity : ℕ)
    → capacity ≤ length p
    → builder_init (some old) (some p) capacity h.flags h.boot_id h.producer_id h.created_counter
      ≡ (ok, some b)
    → Holds h [] b
unfolding encode_all
init-Holds h old b p capacity fits e =
    let (enough, small, made) =
      init_ok old b p capacity h.flags h.boot_id h.producer_id h.created_counter e in
    let zeros = replicate {A = ℕ} (capacity - header_size) 0 in
    subst (Holds h []) (sym made) (record {
      rest = zeros ++ drop capacity p;
      buffer = ap some (write_header-eq p capacity h enough fits);
      used = refl;
      room = omega (
        arith,
        length-append zeros (drop capacity p),
        length-replicate {A = ℕ} (capacity - header_size) 0,
      );
      within = enough;
      capacity = small;
      count = refl;
      counted = omega arith;
      flags = init_flags old b p capacity h.flags h.boot_id h.producer_id h.created_counter e;
      known = tt;
    })

Building-Holds :
    {h : HeaderWords} {recs : List Tlv} {b : BibBuilder} → Building h recs b → Holds h recs b
Building-Holds {h} (init {b} old p capacity fits e) = init-Holds h old b p capacity fits e
Building-Holds {h} (add {recs} {b} {after} r building e) =
    added-Holds h recs b after r (Building-Holds building) e

-- The bytes of a sealed block.
pub record IsImage (h : HeaderWords) (recs : List Tlv) (q : List ℕ) (n : ℕ) : Type 0 where
  pub rest : List ℕ
  pub size : n ≡ header_size + length (encode_all recs)
  pub small : n ≤ u32_max
  pub bytes :
      q
      ≡ header_bytes h n
          (crc32c (header_bytes h n 0 (length recs) ++ (encode_all recs ++ rest)) n)
          (length recs)
        ++ (encode_all recs ++ rest)
  pub counted : header_size + tlv_header_size * length recs ≤ n
  pub flags : header_flags_are_known h.flags ≡ true
  pub known : HaveKnownFlags recs

seal_with_ok :
    (b after : BibBuilder) (p : List ℕ) (n : ℕ)
    → seal_with b (some p) ≡ (ok, after, some n)
    → (n ≡ b.length) × (after.buffer ≡ some (seal_buffer p b.length b.tlv_count))
seal_with_ok b after p n h = ground arith

seal_is :
    (b after : BibBuilder) (result : BuilderResult) (n : Option ℕ)
    → builder_seal (some b) ≡ (result, some after, n)
    → seal_with b b.buffer ≡ (result, after, n)
unfolding builder_seal
seal_is b after result n h = parts (seal_with b b.buffer) h
  where
    parts :
        (x : BuilderResult × BibBuilder × Option ℕ)
        → ◌≡◌ {A = BuilderResult × Option BibBuilder × Option ℕ}
            (x.0, some x.1, x.2)
            (result, some after, n)
        → x ≡ (result, after, n)
    parts (r, a, l) e = cc

pub seal-IsImage :
    {h : HeaderWords} {recs : List Tlv} {b after : BibBuilder} (q : List ℕ) (n : ℕ)
    → Building h recs b
    → builder_seal (some b) ≡ (ok, some after, some n)
    → after.buffer ≡ some q
    → IsImage h recs q n
seal-IsImage {h} {recs} {b} {after} q n building e has =
    let i = Building-Holds building in
    let body = encode_all recs ++ i.rest in
    let p = header_bytes h 0 0 0 ++ body in
    let (size, sealed) =
      seal_with_ok b after p n (
        subst (λ x. seal_with b x ≡ (ok, after, some n)) i.buffer
          (seal_is b after ok (some n) e)) in
    record {
      rest = i.rest;
      size = size ∙ i.used;
      small = omega (arith, i.within, i.capacity);
      bytes =
          some_injective (sym has ∙ sealed)
          ∙ ap (λ c. seal_buffer p b.length c) i.count
          ∙ seal_buffer-eq h body b.length (length recs)
          ∙ ap
              (λ k.
                header_bytes h k (crc32c (header_bytes h k 0 (length recs) ++ body) k) (length recs)
                ++ body)
              (sym size);
      counted = omega (arith, i.counted, i.count);
      flags = i.flags;
      known = i.known;
    }
