-- ===== src/Bib/Builder/Laws.antt =====
-- The builder stays within its buffer, whatever is added, sealed or refused.
use native.Mathlib.Decide.{dec_lt}
use atarix.Prelude.{
  ℕ, ◌+◌, ◌-◌, ◌*◌, ◌/◌, ◌%◌, ◌^◌, ◌≤◌, ◌≡◌, refl, sym, ap, subst, false, not, ◌||◌, Option, none,
  some, List, length, ltb, bit_and, arith, if_holds,
}
use atarix.Prelude.Bits.Masks.{bit_and_mask, bit_and_shifted}
use atarix.Prelude.Word.{u32, not32}
use atarix.Bib.Format.{header_size, tlv_header_size, tlv_flags_are_known}
use atarix.Bib.Builder.{
  BuilderResult, ok, BibBuilder, u32_max, align8_u32, write_header, builder_init, write_record,
  append_record, add_tlv_to, add_tlv, missing_payload, payload_bytes, builder_add_tlv, seal_with,
  builder_seal,
}
use atarix.Bib.Builder.Writes.{length-write_header, length-write_record, length-seal_buffer}

-- The next record starts inside the buffer at an aligned offset, and each record took its header at
-- least.
pub record IsBuilder (b : BibBuilder) : Type 0 where
  pub mapped : (p : List ℕ) → b.buffer ≡ some p → b.capacity ≤ length p
  pub capacity : b.capacity ≤ u32_max
  pub within : b.length ≤ b.capacity
  pub aligned : b.length % 8 ≡ 0
  pub counted : header_size + tlv_header_size * b.tlv_count ≤ b.length

-- The record's length is the next multiple of 8.
pub align8-eq : (value : ℕ) → value ≤ u32_max - 7 → align8_u32 value ≡ some ((value + 7) / 8 * 8)
unfolding align8_u32
align8-eq value h =
    let rounded : bit_and (u32 (value + 7)) (not32 7) ≡ (value + 7) / 8 * 8 = omega (
      arith,
      bit_and_shifted 3 (u32 (value + 7)) (2 ^ 29 - 1),
      bit_and_mask 29 (u32 (value + 7) / 2 ^ 3),
    ) in
    ground arith

pub some_injective : {A : Type 0} {x y : A} → some x ≡ some y → x ≡ y
some_injective e = cc

pub init_ok :
    (old b : BibBuilder) (p : List ℕ) (capacity flags boot producer counter : ℕ)
    → builder_init (some old) (some p) capacity flags boot producer counter ≡ (ok, some b)
    → (header_size ≤ capacity)
      × (capacity ≤ u32_max)
      × (b ≡ record {
        buffer = some (write_header p capacity flags boot producer counter);
        capacity = capacity;
        length = header_size;
        tlv_count = 0;
        sealed = false;
      })
unfolding builder_init
init_ok old b p capacity flags boot producer counter h = ground arith

init-IsBuilder :
    (old b : BibBuilder) (p : List ℕ) (capacity flags boot producer counter : ℕ)
    → capacity ≤ length p
    → builder_init (some old) (some p) capacity flags boot producer counter ≡ (ok, some b)
    → IsBuilder b
init-IsBuilder old b p capacity flags boot producer counter fits h =
    let (room, small, made) = init_ok old b p capacity flags boot producer counter h in
    subst IsBuilder (sym made) (record {
      mapped = λ q e.
          rw (← some_injective e)
            (omega (arith, length-write_header p capacity flags boot producer counter));
      capacity = small;
      within = room;
      aligned = refl;
      counted = omega arith;
    })

abbrev AndBuilder : BuilderResult × BibBuilder → Type 0
AndBuilder (result, b) = IsBuilder b

-- A record of `n` bytes appended where it fits.
appended :
    (b : BibBuilder) (p : List ℕ) (n type flags : ℕ) (payload : List ℕ) (payload_length : ℕ)
    → IsBuilder b
    → b.buffer ≡ some p
    → n % 8 ≡ 0
    → tlv_header_size ≤ n
    → n ≤ b.capacity - b.length
    → IsBuilder (record b {
      buffer = some (write_record p b.length n type flags payload payload_length);
      length = u32 (b.length + n);
      tlv_count = u32 (b.tlv_count + 1);
    })
appended b p n type flags payload payload_length i has multiple enough room = record {
  mapped = λ q e. rw (← some_injective e) (
      omega (
        arith,
        length-write_record p b.length n type flags payload payload_length,
        i.mapped p has,
      ));
  capacity = i.capacity;
  within = omega (arith, i.within, i.capacity);
  aligned = omega (arith, i.within, i.capacity, i.aligned);
  counted = omega (arith, i.within, i.capacity, i.counted);
}

append_fits :
    (b : BibBuilder) (p : List ℕ) (n type flags : ℕ) (payload : List ℕ) (payload_length : ℕ)
    → IsBuilder b
    → b.buffer ≡ some p
    → n % 8 ≡ 0
    → tlv_header_size ≤ n
    → IsBuilder (append_record b p type flags payload payload_length (some n)).1
unfolding append_record
append_fits b p n type flags payload payload_length i has multiple enough =
    if_holds AndBuilder (ltb b.capacity b.length || ltb (b.capacity - b.length) n) _ _ (λ _. i)
      λ test. appended b p n type flags payload payload_length i has multiple enough (ground arith)

append-IsBuilder :
    (b : BibBuilder) (p : List ℕ) (type flags : ℕ) (payload : List ℕ) (payload_length : ℕ)
    → IsBuilder b
    → b.buffer ≡ some p
    → payload_length ≤ u32_max - tlv_header_size
    → IsBuilder
        (append_record b p type flags payload payload_length
          (align8_u32 (u32 (tlv_header_size + payload_length)))).1
append-IsBuilder b p type flags payload payload_length i has short =
    elim (dec_lt (u32_max - 7) (tlv_header_size + payload_length)) [
      | yes long ↦
          let refused : align8_u32 (u32 (tlv_header_size + payload_length)) ≡ none =
            unfold align8_u32 in ground arith in
          rw refused (unfold append_record in i)
      | no fits ↦
          let value_is : u32 (tlv_header_size + payload_length) ≡ tlv_header_size + payload_length =
            omega arith in
          rw (value_is, align8-eq (tlv_header_size + payload_length) (omega arith))
            (append_fits b p ((tlv_header_size + payload_length + 7) / 8 * 8) type flags payload
              payload_length i has (omega arith) (omega arith))
    ]

add_tlv_to-IsBuilder :
    (b : BibBuilder) (buffer payload : Option (List ℕ)) (type flags payload_length : ℕ)
    → IsBuilder b
    → b.buffer ≡ buffer
    → IsBuilder (add_tlv_to b buffer type flags payload payload_length).1
add_tlv_to-IsBuilder b none payload type flags payload_length i has = i
add_tlv_to-IsBuilder b (some p) payload type flags payload_length i has =
    if_holds AndBuilder (missing_payload payload payload_length) _ _ (λ _. i)
      λ _.
        if_holds AndBuilder b.sealed _ _ (λ _. i)
          λ _.
            if_holds AndBuilder (not (tlv_flags_are_known flags)) _ _ (λ _. i)
              λ _.
                if_holds AndBuilder (ltb (u32_max - tlv_header_size) payload_length) _ _ (λ _. i)
                  λ short.
                    append-IsBuilder b p type flags (payload_bytes payload) payload_length i has
                      (ground arith)

add_tlv-IsBuilder :
    (b : BibBuilder) (type flags : ℕ) (payload : Option (List ℕ)) (payload_length : ℕ)
    → IsBuilder b
    → IsBuilder (add_tlv b type flags payload payload_length).1
unfolding add_tlv
add_tlv-IsBuilder b type flags payload payload_length i =
    add_tlv_to-IsBuilder b b.buffer payload type flags payload_length i refl

seal_with-IsBuilder :
    (b : BibBuilder) (buffer : Option (List ℕ))
    → IsBuilder b
    → b.buffer ≡ buffer
    → IsBuilder (seal_with b buffer).1
seal_with-IsBuilder b none i has = i
seal_with-IsBuilder b (some p) i has =
    if_holds (λ (r : BuilderResult × BibBuilder × Option ℕ). IsBuilder r.1) b.sealed _ _ (λ _. i)
      λ _. record {
        mapped = λ q e.
            rw (← some_injective e)
              (omega (arith, length-seal_buffer p b.length b.tlv_count, i.mapped p has));
        capacity = i.capacity;
        within = i.within;
        aligned = i.aligned;
        counted = i.counted;
      }

-- What the builder's functions make of a block, from its initialisation on, refusals included.
pub data Reach : BibBuilder → Type 0 where
  init :
      {b : BibBuilder} (old : BibBuilder) (p : List ℕ) (capacity flags boot producer counter : ℕ)
      → capacity ≤ length p
      → builder_init (some old) (some p) capacity flags boot producer counter ≡ (ok, some b)
      → Reach b
  add :
      {b after : BibBuilder} (type flags : ℕ) (payload : Option (List ℕ)) (payload_length : ℕ)
      (result : BuilderResult)
      → Reach b
      → builder_add_tlv (some b) type flags payload payload_length ≡ (result, some after)
      → Reach after
  seal :
      {b after : BibBuilder} (result : BuilderResult) (n : Option ℕ)
      → Reach b
      → builder_seal (some b) ≡ (result, some after, n)
      → Reach after

add_is :
    (b after : BibBuilder) (type flags : ℕ) (payload : Option (List ℕ)) (payload_length : ℕ)
    (result : BuilderResult)
    → builder_add_tlv (some b) type flags payload payload_length ≡ (result, some after)
    → (add_tlv b type flags payload payload_length).1 ≡ after
unfolding builder_add_tlv
add_is b after type flags payload payload_length result h =
    some_injective (ap (λ (r : BuilderResult × Option BibBuilder). r.1) h)

seal_is :
    (b after : BibBuilder) (result : BuilderResult) (n : Option ℕ)
    → builder_seal (some b) ≡ (result, some after, n)
    → (seal_with b b.buffer).1 ≡ after
unfolding builder_seal
seal_is b after result n h =
    some_injective (ap (λ (r : BuilderResult × Option BibBuilder × Option ℕ). r.1) h)

-- However a block is built, with whatever is refused on the way, the builder stays in its buffer: its
-- length is a multiple of 8 within the capacity, the buffer keeps that many bytes, and the header and
-- the headers of the counted records fit the length.
pub Reach-IsBuilder : {b : BibBuilder} → Reach b → IsBuilder b
Reach-IsBuilder (init old p capacity flags boot producer counter fits h) =
    init-IsBuilder old _ p capacity flags boot producer counter fits h
Reach-IsBuilder (add {b} {after} type flags payload payload_length result r h) =
    subst IsBuilder (add_is b after type flags payload payload_length result h)
      (add_tlv-IsBuilder b type flags payload payload_length (Reach-IsBuilder r))
Reach-IsBuilder (seal {b} {after} result n r h) =
    subst IsBuilder (seal_is b after result n h)
      (seal_with-IsBuilder b b.buffer (Reach-IsBuilder r) refl)
