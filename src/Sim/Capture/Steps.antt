-- ===== src/Sim/Capture/Steps.antt =====
-- The calls of a successful capture of src/sim/sim_bib.c.
use atarix.Prelude.{ℕ, ◌≤◌, ◌≡◌, refl, sym, ◌∙◌, true, Option, none, some, List, [], ◌∷◌, length}
use atarix.Bib.Format.{flag_mandatory, service_directory_reference, memory_map_reference}
use atarix.Bib.Layout.{Tlv, HeaderWords}
use atarix.Bib.Bytes.{write_bytes, write_le32, write_le64}
use atarix.Bib.Builder.{
  BuilderResult, ok, e_argument, e_capacity, e_state, e_flags, e_length, BibBuilder, builder_init,
  builder_add_tlv, builder_add_reference, builder_seal, reference_payload,
}
use atarix.Bib.Builder.Records.{Building, init, add}
use atarix.Bib.Roundtrip.References.{Object, payload_of}
use atarix.Sim.Capture.{
  CaptureConfig, local_builder, written, capture_sealed, capture_memory, capture_service,
  sim_bib_capture,
}

abbrev pub header_of : CaptureConfig → HeaderWords
header_of c = record {
  flags = c.header_flags;
  boot_id = c.boot_id;
  producer_id = c.producer_id;
  created_counter = c.created_counter;
}

abbrev pub service_of : CaptureConfig → Object
service_of c = record {
  id = c.service_object_id;
  address = c.service_address;
  size = c.service_length;
  format_major = 1;
  format_minor = 0;
}

abbrev pub memory_of : CaptureConfig → Object
memory_of c = record {
  id = c.memory_object_id;
  address = c.memory_address;
  size = c.memory_length;
  format_major = 1;
  format_minor = 0;
}

abbrev pub reference_tlv : ℕ → Object → Tlv
reference_tlv type o = record { type = type; flags = flag_mandatory; payload = payload_of o }

abbrev pub records_of : CaptureConfig → List Tlv
records_of c =
    reference_tlv service_directory_reference (service_of c)
    ∷ reference_tlv memory_map_reference (memory_of c)
    ∷ []

abbrev Result : Type 0
Result = BuilderResult × Option (List ℕ) × Option ℕ

-- A step of the capture that went on had succeeded.
service_inv :
    (c : CaptureConfig) (p q : List ℕ) (n : ℕ) (x : BuilderResult × Option BibBuilder)
    → ◌≡◌ {A = Result} (capture_service c p x) (ok, some q, some n)
    → (b : Option BibBuilder) × (x ≡ (ok, b))
      × (◌≡◌ {A = Result}
          (capture_memory c (
            builder_add_reference b service_directory_reference flag_mandatory c.service_object_id
              c.service_address c.service_length 1 0))
          (ok, some q, some n))
unfolding capture_service
service_inv c p q n (ok, b) h = (b, refl, h)
service_inv c p q n (e_argument, b) h = absurd cc
service_inv c p q n (e_capacity, b) h = absurd cc
service_inv c p q n (e_state, b) h = absurd cc
service_inv c p q n (e_flags, b) h = absurd cc
service_inv c p q n (e_length, b) h = absurd cc

memory_inv :
    (c : CaptureConfig) (q : List ℕ) (n : ℕ) (x : BuilderResult × Option BibBuilder)
    → ◌≡◌ {A = Result} (capture_memory c x) (ok, some q, some n)
    → (b : Option BibBuilder) × (x ≡ (ok, b))
      × (◌≡◌ {A = Result}
          (capture_sealed (
            builder_add_reference b memory_map_reference flag_mandatory c.memory_object_id
              c.memory_address c.memory_length 1 0))
          (ok, some q, some n))
unfolding capture_memory
memory_inv c q n (ok, b) h = (b, refl, h)
memory_inv c q n (e_argument, b) h = absurd cc
memory_inv c q n (e_capacity, b) h = absurd cc
memory_inv c q n (e_state, b) h = absurd cc
memory_inv c q n (e_flags, b) h = absurd cc
memory_inv c q n (e_length, b) h = absurd cc

sealed_inv :
    (q : List ℕ) (n : ℕ) (x : BuilderResult × Option BibBuilder)
    → ◌≡◌ {A = Result} (capture_sealed x) (ok, some q, some n)
    → (b after : Option BibBuilder) × (x ≡ (ok, b))
      × (builder_seal b ≡ (ok, after, some n))
      × (written after ≡ some q)
unfolding capture_sealed
sealed_inv q n (ok, b) h = let (after, e, w) = parts (builder_seal b) h in (b, after, refl, e, w)
  where
    parts :
        (x : BuilderResult × Option BibBuilder × Option ℕ)
        → ◌≡◌ {A = Result} (x.0, written x.1, x.2) (ok, some q, some n)
        → (after : Option BibBuilder) × (x ≡ (ok, after, some n)) × (written after ≡ some q)
    parts (r, after, l) e =
        let a : r ≡ ok = cc in let b : l ≡ some n = cc in (after, rw (a, b) refl, cc)
sealed_inv q n (e_argument, b) h = absurd cc
sealed_inv q n (e_capacity, b) h = absurd cc
sealed_inv q n (e_state, b) h = absurd cc
sealed_inv q n (e_flags, b) h = absurd cc
sealed_inv q n (e_length, b) h = absurd cc

none_added :
    (type : ℕ) (o : Object) {b : Option BibBuilder}
    → builder_add_reference none type flag_mandatory o.id o.address o.size o.format_major
        o.format_minor
      ≡ (ok, b)
    → ⊥
unfolding builder_add_reference builder_add_tlv
none_added type o h = cc

none_sealed : {after : Option BibBuilder} {n : Option ℕ} → builder_seal none ≡ (ok, after, n) → ⊥
unfolding builder_seal
none_sealed h = cc

-- What a successful capture did.
pub record Steps (c : CaptureConfig) (q : List ℕ) (n : ℕ) : Type 0 where
  pub b : BibBuilder
  pub after : BibBuilder
  pub building : Building (header_of c) (records_of c) b
  pub sealed : builder_seal (some b) ≡ (ok, some after, some n)
  pub buffer : after.buffer ≡ some q

-- A reference is added as a record of its payload's length.
reference_is_tlv :
    (b : BibBuilder) (type : ℕ) (o : Object)
    → builder_add_reference
        (some b)
        type
        flag_mandatory
        o.id
        o.address
        o.size
        o.format_major
        o.format_minor
      ≡ builder_add_tlv (some b) type flag_mandatory (some (payload_of o)) (length (payload_of o))
unfolding builder_add_reference reference_payload write_le64 write_le32 write_bytes
reference_is_tlv b type o = refl

steps :
    (c : CaptureConfig) (p q : List ℕ) (capacity n : ℕ) (b0 b1 b2 after : Option BibBuilder)
    → capacity ≤ length p
    → builder_init
        (some local_builder)
        (some p)
        capacity
        c.header_flags
        c.boot_id
        c.producer_id
        c.created_counter
      ≡ (ok, b0)
    → builder_add_reference b0 service_directory_reference flag_mandatory c.service_object_id
        c.service_address c.service_length 1 0
      ≡ (ok, b1)
    → builder_add_reference b1 memory_map_reference flag_mandatory c.memory_object_id
        c.memory_address c.memory_length 1 0
      ≡ (ok, b2)
    → builder_seal b2 ≡ (ok, after, some n)
    → written after ≡ some q
    → Steps c q n
steps c p q capacity n none b1 b2 after fits e0 e1 e2 e3 w =
    absurd (none_added service_directory_reference (service_of c) e1)
steps c p q capacity n (some a0) none b2 after fits e0 e1 e2 e3 w =
    absurd (none_added memory_map_reference (memory_of c) e2)
steps c p q capacity n (some a0) (some a1) none after fits e0 e1 e2 e3 w = absurd (none_sealed e3)
steps c p q capacity n (some a0) (some a1) (some a2) none fits e0 e1 e2 e3 w = absurd cc
steps c p q capacity n (some a0) (some a1) (some a2) (some done) fits e0 e1 e2 e3 w = record {
  b = a2;
  after = done;
  building =
      add (reference_tlv memory_map_reference (memory_of c))
        (add (reference_tlv service_directory_reference (service_of c))
          (init local_builder p capacity fits e0)
          (sym (reference_is_tlv a0 service_directory_reference (service_of c)) ∙ e1))
        (sym (reference_is_tlv a1 memory_map_reference (memory_of c)) ∙ e2);
  sealed = e3;
  buffer = w;
}

pub captured-Steps :
    (c : CaptureConfig) (p q : List ℕ) (capacity n : ℕ)
    → capacity ≤ length p
    → sim_bib_capture (some c) (some p) capacity true ≡ (ok, some q, some n)
    → Steps c q n
unfolding sim_bib_capture
captured-Steps c p q capacity n fits h =
    let (b0, e0, h0) =
      service_inv c p q n
        (builder_init (some local_builder) (some p) capacity c.header_flags c.boot_id c.producer_id
          c.created_counter)
        h in
    let (b1, e1, h1) =
      memory_inv c q n
        (builder_add_reference b0 service_directory_reference flag_mandatory c.service_object_id
          c.service_address c.service_length 1 0)
        h0 in
    let (b2, after, e2, e3, w) =
      sealed_inv q n
        (builder_add_reference b1 memory_map_reference flag_mandatory c.memory_object_id
          c.memory_address c.memory_length 1 0)
        h1 in
    steps c p q capacity n b0 b1 b2 after fits e0 e1 e2 e3 w
