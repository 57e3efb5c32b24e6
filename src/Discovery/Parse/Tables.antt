-- ===== src/Discovery/Parse/Tables.antt =====
-- What the records of an image do to the tables.
use atarix.Prelude.{
  ℕ, ◌+◌, ◌≤◌, ◌≡◌, ◌⊎◌, inl, inr, refl, ◌||◌, some, List, leb, ◌==◌, arith, if◌then◌else◌,
}
use atarix.Prelude.Outcome.{
  value, read_le16, read_le32, read_le64, value_injective, >>=-eq-value, guard-eq-value,
}
use atarix.Prelude.Outcome.Rules.{Meets, gives, Any, Meets-bind, Meets-if, Meets-guard}
use atarix.Discovery.Format.{
  DiscoveryResult, duplicate_handle, capacity, record_resource, record_service, record_dependency,
  record_instrumentation,
}
use atarix.Discovery.Database.{ResourceEntry, Database, find_resource, database_contains_handle}
use atarix.Discovery.Database.Laws.{IsDatabase}
use atarix.Discovery.Parse.{
  is_null, add_resource, add_service, add_dependency, add_instrumentation, add_record,
}
use atarix.Discovery.Parse.Entries.{
  with_resource, with_service, with_dependency, with_instrumentation, found_resource,
}

-- An error that leaves a well-formed database behind.
abbrev pub Refused : DiscoveryResult × Database → Type 0
Refused (result, db) = ((result ≡ duplicate_handle) ⊎ (result ≡ capacity)) × IsDatabase db

-- The 32 bytes of a record can be read, or `F` is known.
pub record Readable (F : Type 0) (image : List ℕ) (offset : ℕ) : Type 0 where
  pub le16 : (k : ℕ) → k + 2 ≤ 32 → Meets F Refused Any (read_le16 image (offset + k))
  pub le32 : (k : ℕ) → k + 4 ≤ 32 → Meets F Refused Any (read_le32 image (offset + k))
  pub le64 : (k : ℕ) → k + 8 ≤ 32 → Meets F Refused Any (read_le64 image (offset + k))

module _ {F : Type 0} (image : List ℕ) (offset : ℕ) (reads : Readable F image offset) where
  add_resource-Meets :
      (db : Database) → IsDatabase db → Meets F Refused IsDatabase (add_resource image offset db)
  unfolding add_resource
  add_resource-Meets db d =
      Meets-bind (read_le64 image (offset + 16)) _ (reads.le64 16 (omega arith)) λ handle _.
        Meets-guard (database_contains_handle (some db) handle) _ _ (inl refl, d)
          λ fresh.
            Meets-guard (leb db.resource_capacity db.resource_count || is_null db.resources) _ _
              (inr refl, d)
              λ room.
                Meets-bind (read_le16 image (offset + 8)) _ (reads.le16 8 (omega arith)) λ type _.
                  Meets-bind (read_le16 image (offset + 10)) _ (reads.le16 10 (omega arith))
                    λ version _.
                      Meets-bind (read_le32 image (offset + 12)) _ (reads.le32 12 (omega arith))
                        λ flags _.
                          Meets-bind (read_le32 image (offset + 24)) _ (reads.le32 24 (omega arith))
                            λ provider _.
                              Meets-bind (read_le32 image (offset + 28)) _
                                (reads.le32 28 (omega arith))
                                λ number _. gives (with_resource db d _ fresh room)

  add_service-Meets :
      (db : Database) → IsDatabase db → Meets F Refused IsDatabase (add_service image offset db)
  unfolding add_service
  add_service-Meets db d =
      Meets-bind (read_le64 image (offset + 16)) _ (reads.le64 16 (omega arith)) λ handle _.
        Meets-guard (database_contains_handle (some db) handle) _ _ (inl refl, d)
          λ fresh.
            Meets-guard (leb db.service_capacity db.service_count || is_null db.services) _ _
              (inr refl, d)
              λ room.
                Meets-bind (read_le16 image (offset + 8)) _ (reads.le16 8 (omega arith)) λ type _.
                  Meets-bind (read_le16 image (offset + 10)) _ (reads.le16 10 (omega arith))
                    λ version _.
                      Meets-bind (read_le32 image (offset + 12)) _ (reads.le32 12 (omega arith))
                        λ flags _.
                          Meets-bind (read_le32 image (offset + 24)) _ (reads.le32 24 (omega arith))
                            λ provider _.
                              Meets-bind (read_le32 image (offset + 28)) _
                                (reads.le32 28 (omega arith))
                                λ number _. gives (with_service db d _ fresh room)

  add_instrumentation-Meets :
      (db : Database)
      → IsDatabase db
      → Meets F Refused IsDatabase (add_instrumentation image offset db)
  unfolding add_instrumentation
  add_instrumentation-Meets db d =
      Meets-bind (read_le64 image (offset + 16)) _ (reads.le64 16 (omega arith)) λ handle _.
        Meets-guard (database_contains_handle (some db) handle) _ _ (inl refl, d)
          λ fresh.
            Meets-guard
              (leb db.instrumentation_capacity db.instrumentation_count
                || is_null db.instrumentation)
              _ _ (inr refl, d)
              λ room.
                Meets-bind (read_le64 image (offset + 24)) _ (reads.le64 24 (omega arith))
                  λ observed _.
                    Meets-bind (read_le16 image (offset + 8)) _ (reads.le16 8 (omega arith))
                      λ type _.
                        Meets-bind (read_le16 image (offset + 10)) _ (reads.le16 10 (omega arith))
                          λ version _.
                            Meets-bind (read_le32 image (offset + 12)) _
                              (reads.le32 12 (omega arith))
                              λ flags _. gives (with_instrumentation db d _ fresh room)

  add_dependency-Meets :
      (db : Database) → IsDatabase db → Meets F Refused IsDatabase (add_dependency image offset db)
  unfolding add_dependency
  add_dependency-Meets db d =
      Meets-guard (leb db.dependency_capacity db.dependency_count || is_null db.dependencies) _ _
        (inr refl, d)
        λ room.
          Meets-bind (read_le64 image (offset + 8)) _ (reads.le64 8 (omega arith)) λ consumer _.
            Meets-bind (read_le64 image (offset + 16)) _ (reads.le64 16 (omega arith)) λ provider _.
              Meets-bind (read_le16 image (offset + 24)) _ (reads.le16 24 (omega arith)) λ type _.
                Meets-bind (read_le16 image (offset + 26)) _ (reads.le16 26 (omega arith))
                  λ version _.
                    Meets-bind (read_le32 image (offset + 28)) _ (reads.le32 28 (omega arith))
                      λ flags _. gives (with_dependency db d _ room)

  pub add_record-Meets :
      (type : ℕ) (db : Database)
      → IsDatabase db
      → Meets F Refused IsDatabase (add_record image offset type db)
  unfolding add_record
  add_record-Meets type db d =
      Meets-if (type == record_resource) _ _ (λ _. add_resource-Meets db d)
        λ _.
          Meets-if (type == record_service) _ _ (λ _. add_service-Meets db d)
            λ _.
              Meets-if (type == record_dependency) _ _ (λ _. add_dependency-Meets db d)
                λ _.
                  Meets-if (type == record_instrumentation) _ _
                    (λ _. add_instrumentation-Meets db d) λ _. gives d

-- A resource record that is added is found by its handle, with the record's provider and instance, and
-- every other handle finds what it found before.
pub find_resource-add :
    (image : List ℕ) (offset : ℕ) (db after : Database)
    → IsDatabase db
    → add_resource image offset db ≡ value after
    → (entry : ResourceEntry) × (read_le64 {E = DiscoveryResult × Database} image (offset + 16)
        ≡ value entry.handle)
      × (read_le32 {E = DiscoveryResult × Database} image (offset + 24) ≡ value entry.provider_id)
      × (read_le32 {E = DiscoveryResult × Database} image (offset + 28) ≡ value entry.instance_id)
      × ((handle : ℕ)
          → find_resource (some after) handle
            ≡ (if entry.handle == handle then some entry else find_resource (some db) handle))
unfolding add_resource find_resource
find_resource-add image offset db after d h =
    let (handle, e0, h0) = >>=-eq-value (read_le64 image (offset + 16)) _ h in
    let (fresh, h1) = guard-eq-value (database_contains_handle (some db) handle) _ _ h0 in
    let (room, h2) =
      guard-eq-value (leb db.resource_capacity db.resource_count || is_null db.resources) _ _ h1 in
    let (type, e3, h3) = >>=-eq-value (read_le16 image (offset + 8)) _ h2 in
    let (version, e4, h4) = >>=-eq-value (read_le16 image (offset + 10)) _ h3 in
    let (flags, e5, h5) = >>=-eq-value (read_le32 image (offset + 12)) _ h4 in
    let (provider, e6, h6) = >>=-eq-value (read_le32 image (offset + 24)) _ h5 in
    let (number, e7, h7) = >>=-eq-value (read_le32 image (offset + 28)) _ h6 in
    let entry : ResourceEntry = record {
      handle = handle;
      resource_type = type;
      resource_version = version;
      resource_flags = flags;
      provider_id = provider;
      instance_id = number;
    } in
    (
      entry,
      e0,
      e6,
      e7,
      λ wanted. found_resource db d entry fresh room after (value_injective h7) wanted,
    )
