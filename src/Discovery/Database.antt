-- ===== src/Discovery/Database.antt =====
-- include/atarix/discovery_database.h and src/discovery/discovery_database.c: four tables of entries in
-- arrays that the caller provides. A pointer to an array is an Option, and NULL is `none`.
pub mod Laws
use atarix.Prelude.{
  ℕ, Bool, true, false, ◌||◌, Option, none, some, List, [], ◌∷◌, take, ◌==◌, if◌then◌else◌,
}

pub record ResourceEntry : Type 0 where
  pub handle : ℕ
  pub resource_type : ℕ
  pub resource_version : ℕ
  pub resource_flags : ℕ
  pub provider_id : ℕ
  pub instance_id : ℕ

pub record ServiceEntry : Type 0 where
  pub handle : ℕ
  pub service_id : ℕ
  pub service_version : ℕ
  pub service_flags : ℕ
  pub provider_id : ℕ
  pub instance_id : ℕ

pub record DependencyEntry : Type 0 where
  pub consumer_handle : ℕ
  pub provider_handle : ℕ
  pub dependency_type : ℕ
  pub dependency_version : ℕ
  pub dependency_flags : ℕ

pub record InstrumentationEntry : Type 0 where
  pub handle : ℕ
  pub observed_handle : ℕ
  pub instrumentation_type : ℕ
  pub instrumentation_version : ℕ
  pub instrumentation_flags : ℕ

pub record Database : Type 0 where
  pub resources : Option (List ResourceEntry)
  pub resource_capacity : ℕ
  pub resource_count : ℕ
  pub services : Option (List ServiceEntry)
  pub service_capacity : ℕ
  pub service_count : ℕ
  pub dependencies : Option (List DependencyEntry)
  pub dependency_capacity : ℕ
  pub dependency_count : ℕ
  pub instrumentation : Option (List InstrumentationEntry)
  pub instrumentation_capacity : ℕ
  pub instrumentation_count : ℕ

-- The database object after the call.
unfoldable pub database_init : Option Database → Option Database
database_init none = none
database_init (some db) = some (record {
  resources = none;
  resource_capacity = 0;
  resource_count = 0;
  services = none;
  service_capacity = 0;
  service_count = 0;
  dependencies = none;
  dependency_capacity = 0;
  dependency_count = 0;
  instrumentation = none;
  instrumentation_capacity = 0;
  instrumentation_count = 0;
})

-- The entries of a table that are in use.
abbrev pub in_use : {A : Type 0} → Option (List A) → ℕ → List A
in_use none count = []
in_use (some entries) count = take count entries

-- The loops over the entries in use; the key of an entry is its handle.
module _ {A : Type 0} (key : A → ℕ) where
  unfoldable pub find_entry : List A → ℕ → Option A
  find_entry [] handle = none
  find_entry (entry ∷ entries) handle =
      if key entry == handle then some entry else find_entry entries handle

  unfoldable pub holds_handle : List A → ℕ → Bool
  holds_handle [] handle = false
  holds_handle (entry ∷ entries) handle =
      if key entry == handle then true else holds_handle entries handle

abbrev pub resource_handle : ResourceEntry → ℕ
resource_handle entry = entry.handle

abbrev pub service_handle : ServiceEntry → ℕ
service_handle entry = entry.handle

abbrev pub instrumentation_handle : InstrumentationEntry → ℕ
instrumentation_handle entry = entry.handle

-- A pointer to the entry that is found is given by the entry.
unfoldable pub find_resource : Option Database → ℕ → Option ResourceEntry
find_resource none handle = none
find_resource (some db) handle =
    find_entry resource_handle (in_use db.resources db.resource_count) handle

unfoldable pub find_service : Option Database → ℕ → Option ServiceEntry
find_service none handle = none
find_service (some db) handle =
    find_entry service_handle (in_use db.services db.service_count) handle

unfoldable pub database_contains_handle : Option Database → ℕ → Bool
database_contains_handle none handle = false
database_contains_handle (some db) handle =
    holds_handle resource_handle (in_use db.resources db.resource_count) handle
    || holds_handle service_handle (in_use db.services db.service_count) handle
    || holds_handle instrumentation_handle (in_use db.instrumentation db.instrumentation_count)
        handle
