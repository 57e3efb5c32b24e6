-- ===== src/Discovery/Parse/Entries.antt =====
-- An entry more in one of the tables of a well-formed database.
use native.Mathlib.Decide.{ℕ_discrete}
use atarix.Prelude.{
  ℕ, ◌+◌, ◌≤◌, ◌<◌, ◌≡◌, false, ◌||◌, Option, none, some, List, [], ◌∷◌, ◌++◌, leb, ◌==◌, arith,
  if◌then◌else◌,
}
use atarix.Discovery.Database.{
  ResourceEntry, ServiceEntry, DependencyEntry, InstrumentationEntry, Database, in_use,
  find_resource, resource_handle, service_handle, instrumentation_handle, database_contains_handle,
}
use atarix.Discovery.Database.Laws.{
  IsTable, find_entry-append, occurrences, occurrences-append, in_use-set, set-IsTable,
  occurrences_of, IsDatabase, contains_iff,
}
use atarix.Discovery.Parse.{is_null, store_entry}

-- An entry that is stored behind those in use.
stored :
    {A : Type 0} (entries : Option (List A)) (size count : ℕ) (v : A)
    → IsTable entries size count
    → (leb size count || is_null entries) ≡ false
    → IsTable (store_entry entries count v) size (count + 1)
      × (in_use (store_entry entries count v) (count + 1) ≡ in_use entries count ++ v ∷ [])
stored none size count v t h = ground arith
stored (some xs) size count v t h =
    let room : count < size = ground arith in
    (set-IsTable xs size count v t room, in_use-set xs size count v t room)

one_more :
    (f : ℕ → ℕ) (k handle : ℕ)
    → f k ≡ 0
    → f handle ≤ 1
    → f handle + (if k == handle then 1 else 0) ≤ 1
one_more f k handle new most = elim (ℕ_discrete k handle) [
  | yes e ↦ let zero_there : f handle ≡ 0 = rw (← e) new in ground arith
  | no ne ↦ ground arith
]

module _ (db : Database) (d : IsDatabase db) where
  pub with_resource :
      (entry : ResourceEntry)
      → database_contains_handle (some db) entry.handle ≡ false
      → (leb db.resource_capacity db.resource_count || is_null db.resources) ≡ false
      → IsDatabase (record db {
        resources = store_entry db.resources db.resource_count entry;
        resource_count = db.resource_count + 1;
      })
  with_resource entry fresh room =
      let (table, used) =
        stored db.resources db.resource_capacity db.resource_count entry d.resources room in
      record {
        resources = table;
        services = d.services;
        dependencies = d.dependencies;
        instrumentation = d.instrumentation;
        unique = λ h.
            rw
              (
                used,
                occurrences-append resource_handle (in_use db.resources db.resource_count) entry h,
              )
              (omega (
                arith,
                one_more (occurrences_of db) entry.handle h ((contains_iff db entry.handle).0 fresh)
                    (d.unique h),
              ));
      }

  pub with_service :
      (entry : ServiceEntry)
      → database_contains_handle (some db) entry.handle ≡ false
      → (leb db.service_capacity db.service_count || is_null db.services) ≡ false
      → IsDatabase (record db {
        services = store_entry db.services db.service_count entry;
        service_count = db.service_count + 1;
      })
  with_service entry fresh room =
      let (table, used) =
        stored db.services db.service_capacity db.service_count entry d.services room in
      record {
        resources = d.resources;
        services = table;
        dependencies = d.dependencies;
        instrumentation = d.instrumentation;
        unique = λ h.
            rw
              (
                used,
                occurrences-append service_handle (in_use db.services db.service_count) entry h,
              )
              (omega (
                arith,
                one_more (occurrences_of db) entry.handle h ((contains_iff db entry.handle).0 fresh)
                    (d.unique h),
              ));
      }

  pub with_dependency :
      (entry : DependencyEntry)
      → (leb db.dependency_capacity db.dependency_count || is_null db.dependencies) ≡ false
      → IsDatabase (record db {
        dependencies = store_entry db.dependencies db.dependency_count entry;
        dependency_count = db.dependency_count + 1;
      })
  with_dependency entry room = record {
    resources = d.resources;
    services = d.services;
    dependencies =
        (stored db.dependencies db.dependency_capacity db.dependency_count entry d.dependencies
          room).0;
    instrumentation = d.instrumentation;
    unique = d.unique;
  }

  pub with_instrumentation :
      (entry : InstrumentationEntry)
      → database_contains_handle (some db) entry.handle ≡ false
      → (leb db.instrumentation_capacity db.instrumentation_count || is_null db.instrumentation)
        ≡ false
      → IsDatabase (record db {
        instrumentation = store_entry db.instrumentation db.instrumentation_count entry;
        instrumentation_count = db.instrumentation_count + 1;
      })
  with_instrumentation entry fresh room =
      let (table, used) =
        stored db.instrumentation db.instrumentation_capacity db.instrumentation_count entry
          d.instrumentation room in
      record {
        resources = d.resources;
        services = d.services;
        dependencies = d.dependencies;
        instrumentation = table;
        unique = λ h.
            rw
              (
                used,
                occurrences-append instrumentation_handle
                    (in_use db.instrumentation db.instrumentation_count) entry h,
              )
              (omega (
                arith,
                one_more (occurrences_of db) entry.handle h ((contains_iff db entry.handle).0 fresh)
                    (d.unique h),
              ));
      }

pub found_resource :
    (db : Database) (d : IsDatabase db) (entry : ResourceEntry)
    → database_contains_handle (some db) entry.handle ≡ false
    → (leb db.resource_capacity db.resource_count || is_null db.resources) ≡ false
    → (after : Database)
    → record db {
      resources = store_entry db.resources db.resource_count entry;
      resource_count = db.resource_count + 1;
    }
      ≡ after
    → (handle : ℕ)
    → find_resource (some after) handle
      ≡ (if entry.handle == handle then some entry else find_resource (some db) handle)
unfolding find_resource
found_resource db d entry fresh room after made handle =
    let (table, used) =
      stored db.resources db.resource_capacity db.resource_count entry d.resources room in
    let new : occurrences resource_handle (in_use db.resources db.resource_count) entry.handle ≡ 0 =
      omega (arith, (contains_iff db entry.handle).0 fresh) in
    rw (← made, used)
      (find_entry-append resource_handle (in_use db.resources db.resource_count) entry handle new)
