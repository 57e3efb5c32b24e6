-- ===== src/Discovery/Parse.antt =====
-- src/discovery/discovery_iterator.c and src/discovery/discovery_parser.c: the records of an image, one
-- after the other, and the tables that they fill. A pointer to a record is its offset in the image.
pub mod Entries
pub mod Tables
pub mod Runs
pub mod Short
use atarix.Prelude.{
  ℕ, zero, suc, ◌+◌, ◌/◌, ◌%◌, ◌^◌, Bool, true, false, not, ◌&&◌, ◌||◌, Option, none, some, List,
  [], ◌∷◌, set, ltb, leb, ◌==◌, if◌then◌else◌,
}
use atarix.Prelude.Outcome.{Outcome, fault, fail, value, ◌>>=◌, read_le16, read_le32, read_le64}
use atarix.Discovery.Format.{
  DiscoveryResult, ok, error_null, missing_end, duplicate_handle, capacity, header_size,
  record_header_size, record_resource, record_service, record_dependency, record_instrumentation,
  record_end, aligned8,
}
use atarix.Discovery.Database.{
  ResourceEntry, ServiceEntry, DependencyEntry, InstrumentationEntry, Database,
  database_contains_handle,
}
use atarix.Discovery.Validate.{Checked, validate}

-- A returned error is `fail`, with the database object as it is then.
abbrev pub Filled : Type 0 → Type 0
Filled A = Outcome (DiscoveryResult × Database) A

unfoldable pub first_record : Option (List ℕ) → ℕ → Option ℕ
first_record none image_size = none
first_record (some image) image_size = if ltb image_size header_size then none else some header_size

-- For a header and a record that are not NULL; `none` is the returned NULL.
unfoldable pub next_record : {E : Type 0} → List ℕ → ℕ → ℕ → Outcome E (Option ℕ)
next_record image image_size offset = do
  record_length ← read_le32 image (offset + 4)
  if ltb record_length record_header_size
      then value none
      else if leb image_size (offset + record_length)
      then value none
      else if not (aligned8 (offset + record_length))
      then value none
      else value (some (offset + record_length))

-- `!db->resources` for the array, which is written at the count.
abbrev pub is_null : {A : Type 0} → Option A → Bool
is_null none = true
is_null (some a) = false

abbrev pub store_entry : {A : Type 0} → Option (List A) → ℕ → A → Option (List A)
store_entry none count entry = none
store_entry (some entries) count entry = some (set entries count entry)

unfoldable pub add_resource : List ℕ → ℕ → Database → Filled Database
add_resource image offset db = do
  handle ← read_le64 image (offset + 16)
  if database_contains_handle (some db) handle
      then fail (duplicate_handle, db)
      else if leb db.resource_capacity db.resource_count || is_null db.resources
      then fail (capacity, db)
      else do
        resource_type ← read_le16 image (offset + 8)
        resource_version ← read_le16 image (offset + 10)
        resource_flags ← read_le32 image (offset + 12)
        provider_id ← read_le32 image (offset + 24)
        instance_id ← read_le32 image (offset + 28)
        value (record db {
          resources = store_entry db.resources db.resource_count (record {
            handle = handle;
            resource_type = resource_type;
            resource_version = resource_version;
            resource_flags = resource_flags;
            provider_id = provider_id;
            instance_id = instance_id;
          });
          resource_count = db.resource_count + 1;
        })

unfoldable pub add_service : List ℕ → ℕ → Database → Filled Database
add_service image offset db = do
  handle ← read_le64 image (offset + 16)
  if database_contains_handle (some db) handle
      then fail (duplicate_handle, db)
      else if leb db.service_capacity db.service_count || is_null db.services
      then fail (capacity, db)
      else do
        service_id ← read_le16 image (offset + 8)
        service_version ← read_le16 image (offset + 10)
        service_flags ← read_le32 image (offset + 12)
        provider_id ← read_le32 image (offset + 24)
        instance_id ← read_le32 image (offset + 28)
        value (record db {
          services = store_entry db.services db.service_count (record {
            handle = handle;
            service_id = service_id;
            service_version = service_version;
            service_flags = service_flags;
            provider_id = provider_id;
            instance_id = instance_id;
          });
          service_count = db.service_count + 1;
        })

unfoldable pub add_dependency : List ℕ → ℕ → Database → Filled Database
add_dependency image offset db =
    if leb db.dependency_capacity db.dependency_count || is_null db.dependencies
    then fail (capacity, db)
    else do
      consumer_handle ← read_le64 image (offset + 8)
      provider_handle ← read_le64 image (offset + 16)
      dependency_type ← read_le16 image (offset + 24)
      dependency_version ← read_le16 image (offset + 26)
      dependency_flags ← read_le32 image (offset + 28)
      value (record db {
        dependencies = store_entry db.dependencies db.dependency_count (record {
          consumer_handle = consumer_handle;
          provider_handle = provider_handle;
          dependency_type = dependency_type;
          dependency_version = dependency_version;
          dependency_flags = dependency_flags;
        });
        dependency_count = db.dependency_count + 1;
      })

unfoldable pub add_instrumentation : List ℕ → ℕ → Database → Filled Database
add_instrumentation image offset db = do
  handle ← read_le64 image (offset + 16)
  if database_contains_handle (some db) handle
      then fail (duplicate_handle, db)
      else if leb db.instrumentation_capacity db.instrumentation_count || is_null db.instrumentation
      then fail (capacity, db)
      else do
        observed_handle ← read_le64 image (offset + 24)
        instrumentation_type ← read_le16 image (offset + 8)
        instrumentation_version ← read_le16 image (offset + 10)
        instrumentation_flags ← read_le32 image (offset + 12)
        value (record db {
          instrumentation = store_entry db.instrumentation db.instrumentation_count (record {
            handle = handle;
            observed_handle = observed_handle;
            instrumentation_type = instrumentation_type;
            instrumentation_version = instrumentation_version;
            instrumentation_flags = instrumentation_flags;
          });
          instrumentation_count = db.instrumentation_count + 1;
        })

-- The switch on the type of a record.
unfoldable pub add_record : List ℕ → ℕ → ℕ → Database → Filled Database
add_record image offset type db =
    if type == record_resource
    then add_resource image offset db
    else if type == record_service
    then add_service image offset db
    else if type == record_dependency
    then add_dependency image offset db
    else if type == record_instrumentation
    then add_instrumentation image offset db
    else value db

-- The loop, at the record that the pointer names. To run out of fuel is a fault.
unfoldable pub parse_from : ℕ → List ℕ → ℕ → Option ℕ → Database → Filled Database
parse_from zero image image_size at db = fault
parse_from (suc fuel) image image_size none db = fail (missing_end, db)
parse_from (suc fuel) image image_size (some offset) db = do
  type ← read_le16 image offset
  if type == record_end then value db else do
    after ← add_record image offset type db
    next ← next_record image image_size offset
    parse_from fuel image image_size next after

-- The returned result, and the database object after the call.
abbrev pub returned : Filled Database → Filled (DiscoveryResult × Database)
returned fault = fault
returned (fail e) = value e
returned (value db) = value (ok, db)

-- After `atarix_discovery_validate`.
unfoldable pub parse_validated :
    Option (List ℕ) → ℕ → Database → Checked (Unit {0}) → Filled Database
parse_validated image image_size db fault = fault
parse_validated image image_size db (fail e) = fail (e, db)
parse_validated none image_size db (value done) = fault
parse_validated (some image) image_size db (value done) =
    parse_from image_size image image_size (first_record (some image) image_size) db

abbrev pub with_database :
    Filled (DiscoveryResult × Database)
    → Outcome (DiscoveryResult × Database) (DiscoveryResult × Option Database)
with_database fault = fault
with_database (fail e) = fail e
with_database (value (result, db)) = value (result, some db)

unfoldable pub parse :
    Option (List ℕ) → ℕ → Option Database → Filled (DiscoveryResult × Option Database)
unfolding parse_validated
parse image image_size none = value (error_null, none)
parse image image_size (some db) =
    with_database (returned (parse_validated image image_size db (validate image image_size)))
