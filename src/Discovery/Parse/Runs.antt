-- ===== src/Discovery/Parse/Runs.antt =====
-- Whole runs of the parser: over any image, and over one that was validated.
use atarix.Prelude.{
  ℕ, zero, suc, ◌+◌, ◌%◌, ◌≤◌, ◌<◌, ◌≡◌, ◌⊎◌, inl, inr, refl, subst, false, not, Option, none, some,
  List, length, ltb, leb, ◌==◌, arith,
}
use atarix.Prelude.Outcome.{
  Outcome, fault, fail, value, read_le16, read_le32, read_le16-value, read_le32-value,
  read_le64-value,
}
use atarix.Prelude.Outcome.Rules.{
  Meets, faults, fails, gives, Any, Meets-bind, Meets-if, Meets-mono, Meets-value, read_le16-Meets,
  read_le32-Meets, read_le64-Meets, read_le16_any, read_le32_any,
}
use atarix.Discovery.Format.{
  DiscoveryResult, ok, duplicate_handle, capacity, header_size, record_header_size, record_end,
  aligned8,
}
use atarix.Discovery.Database.{Database}
use atarix.Discovery.Database.Laws.{IsDatabase}
use atarix.Discovery.Validate.{validate}
use atarix.Discovery.Validate.Safety.{aligned8_iff}
use atarix.Discovery.Validate.Records.{Chain, last, next, Chain-bounded, validate-IsImage}
use atarix.Discovery.Parse.{
  first_record, next_record, add_record, parse_from, parse_validated, returned, with_database,
  parse,
}
use atarix.Discovery.Parse.Tables.{Refused, Readable, add_record-Meets}

-- An error that leaves a well-formed database behind, whatever it is.
abbrev Leaves : DiscoveryResult × Database → Type 0
Leaves (result, db) = IsDatabase db

any_image : (image : List ℕ) (offset : ℕ) → Readable Unit image offset
any_image image offset = record {
  le16 = λ k h. read_le16-Meets tt image (offset + k);
  le32 = λ k h. read_le32-Meets tt image (offset + k);
  le64 = λ k h. read_le64-Meets tt image (offset + k);
}

next_record-Meets :
    (image : List ℕ) (image_size offset : ℕ)
    → Meets Unit Leaves Any (next_record image image_size offset)
unfolding next_record
next_record-Meets image image_size offset =
    Meets-bind (read_le32 image (offset + 4)) _ (read_le32-Meets tt image (offset + 4)) λ len _.
      Meets-if (ltb len record_header_size) _ _ (λ _. gives tt)
        λ _.
          Meets-if (leb image_size (offset + len)) _ _ (λ _. gives tt)
            λ _. Meets-if (not (aligned8 (offset + len))) _ _ (λ _. gives tt) λ _. gives tt

parse_from-Leaves :
    (fuel : ℕ) (image : List ℕ) (image_size : ℕ) (at : Option ℕ) (db : Database)
    → IsDatabase db
    → Meets Unit Leaves IsDatabase (parse_from fuel image image_size at db)
unfolding parse_from
parse_from-Leaves zero image image_size at db d = faults tt
parse_from-Leaves (suc fuel) image image_size none db d = fails d
parse_from-Leaves (suc fuel) image image_size (some offset) db d =
    Meets-bind (read_le16 image offset) _ (read_le16-Meets tt image offset) λ type _.
      Meets-if (type == record_end) _ _ (λ _. gives d)
        λ _.
          Meets-bind (add_record image offset type db) _
            (Meets-mono (λ e r. r.1)
              (add_record-Meets image offset (any_image image offset) type db d))
            λ after after_d.
              Meets-bind (next_record image image_size offset) _
                (next_record-Meets image image_size offset)
                λ at _. parse_from-Leaves fuel image image_size at after after_d

-- The bytes of a record are there.
there : (image : List ℕ) (offset : ℕ) → offset + 32 ≤ length image → Readable ⊥ image offset
there image offset h = record {
  le16 = λ k fits. Meets-value (read_le16-value image (offset + k) (omega arith));
  le32 = λ k fits. Meets-value (read_le32-value image (offset + k) (omega arith));
  le64 = λ k fits. Meets-value (read_le64-value image (offset + k) (omega arith));
}

Chain-aligned : {image : List ℕ} {total offset n : ℕ} → Chain image total offset n → offset % 8 ≡ 0
Chain-aligned (last a h r) = a
Chain-aligned (next len type a r h inside t ne rest) = a

next_record-eq :
    {E : Type 0} (image : List ℕ) (image_size offset len : ℕ)
    → read_le32 {E = E} image (offset + 4) ≡ value len
    → record_header_size ≤ len
    → offset + len < image_size
    → (offset + len) % 8 ≡ 0
    → next_record {E = E} image image_size offset ≡ value (some (offset + len))
unfolding next_record
next_record-eq image image_size offset len r long inside aligned =
    rw r (ground (arith, aligned8_iff (offset + len)))

-- Along a chain the parser finds what the validation found, and ends at the END record.
parse_from-Chain :
    (fuel : ℕ) (image : List ℕ) (image_size total : ℕ) {offset n : ℕ} (db : Database)
    → total ≤ image_size
    → image_size + 24 ≤ length image
    → n ≤ fuel
    → IsDatabase db
    → Chain image total offset n
    → Meets ⊥ Refused IsDatabase (parse_from fuel image image_size (some offset) db)
unfolding parse_from
parse_from-Chain zero image image_size total db within mapped enough d (last a h r) =
    absurd (omega arith)
parse_from-Chain zero image image_size total db within mapped enough d
      (next len type a r h inside t ne rest) =
    absurd (omega arith)
parse_from-Chain (suc fuel) image image_size total db within mapped enough d (last {offset} a h r) =
    rw (read_le16_any {E' = DiscoveryResult × Database} image offset r) (gives d)
parse_from-Chain (suc fuel) image image_size total db within mapped enough d
      (next {offset} {n} len type a r h inside t ne rest) =
    rw (read_le16_any {E' = DiscoveryResult × Database} image offset t) (
      Meets-if (type == record_end) _ _ (λ is_end. absurd (ground arith))
        λ _.
          Meets-bind (add_record image offset type db) _
            (add_record-Meets image offset (there image offset (omega arith)) type db d)
            λ after after_d.
              rw
                (next_record-eq image image_size offset len
                  (read_le32_any {E' = DiscoveryResult × Database} image (offset + 4) r) h
                  (omega (arith, room rest)) (Chain-aligned rest))
                (parse_from-Chain fuel image image_size total after within mapped (omega arith)
                  after_d rest))
  where
    room : {offset n : ℕ} → Chain image total offset n → offset + record_header_size ≤ total
    room (last a h r) = h
    room (next len type a r h inside t ne rest) = omega arith

validated-Leaves :
    (image : Option (List ℕ)) (image_size : ℕ) (db : Database)
    (checked : Outcome DiscoveryResult (Unit {0}))
    → IsDatabase db
    → Meets Unit Leaves IsDatabase (parse_validated image image_size db checked)
unfolding parse_validated
validated-Leaves image image_size db fault d = faults tt
validated-Leaves image image_size db (fail e) d = fails d
validated-Leaves none image_size db (value done) d = faults tt
validated-Leaves (some image) image_size db (value done) d =
    parse_from-Leaves image_size image image_size (first_record (some image) image_size) db d

module _ {result : DiscoveryResult} {after : Database} where
  returned_pair :
      (result' : DiscoveryResult) (after' : Database)
      → ◌≡◌ {A = Outcome (DiscoveryResult × Database) (DiscoveryResult × Option Database)}
          (value (result', some after'))
          (value (result, some after))
      → after' ≡ after
  returned_pair result' after' h = cc

  returned-Leaves :
      {m : Outcome (DiscoveryResult × Database) Database}
      → Meets Unit Leaves IsDatabase m
      → with_database (returned m) ≡ value (result, some after)
      → IsDatabase after
  returned-Leaves (faults x) h = cc
  returned-Leaves (fails {e} d) h = subst IsDatabase (returned_pair e.0 e.1 h) d
  returned-Leaves (gives {a} d) h = subst IsDatabase (returned_pair ok a h) d

-- Whatever image is parsed, and however the parser ends, a well-formed database is left well formed: the
-- tables keep within their arrays, and no handle names two entries.
pub parse-IsDatabase :
    (image : Option (List ℕ)) (image_size : ℕ) (db after : Database) (result : DiscoveryResult)
    → IsDatabase db
    → parse image image_size (some db) ≡ value (result, some after)
    → IsDatabase after
unfolding parse
parse-IsDatabase image image_size db after result d h =
    returned-Leaves (validated-Leaves image image_size db (validate image image_size) d) h

-- How a run over a validated image ends.
abbrev pub Ends : Outcome (DiscoveryResult × Database) (DiscoveryResult × Option Database) → Type 0
Ends m =
    (result : DiscoveryResult) × (after : Database) × (m ≡ value (result, some after))
    × ((result ≡ ok) ⊎ (result ≡ duplicate_handle) ⊎ (result ≡ capacity))
    × IsDatabase after

returned-Ends :
    {m : Outcome (DiscoveryResult × Database) Database}
    → Meets ⊥ Refused IsDatabase m
    → Ends (with_database (returned m))
returned-Ends (faults x) = absurd x
returned-Ends (fails {e} r) = (e.0, e.1, refl, inr r.0, r.1)
returned-Ends (gives {a} d) = (ok, a, refl, inl refl, d)

-- A validated image is parsed to its end if 24 more bytes than its size can be read, the rest of the
-- longest record behind a header of 8 bytes: the parser faults nowhere, reaches the END record, and
-- fails only for a handle that is there already or for a full table.
pub parse-Ends :
    (image : List ℕ) (image_size : ℕ) (db : Database)
    → validate (some image) image_size ≡ value tt
    → image_size + 24 ≤ length image
    → IsDatabase db
    → Ends (parse (some image) image_size (some db))
unfolding parse parse_validated first_record
parse-Ends image image_size db valid mapped d =
    let (total, records, i) = validate-IsImage image image_size valid in
    let first : ltb image_size header_size ≡ false = ground (arith, i.header, i.within) in
    rw (valid, first)
      (returned-Ends (
        parse_from-Chain image_size image image_size total db i.within mapped
          (omega (arith, i.within, Chain-bounded i.chain)) d i.chain))
