-- ===== src/Discovery/Database/Laws.antt =====
-- Tables of entries: how often a handle stands in one, and what one more entry does to it.
use atarix.Prelude.{
  ℕ, ◌+◌, ◌≤◌, ◌<◌, ◌≡◌, ◌↔◌, refl, false, Option, some, List, [], ◌∷◌, ◌++◌, take-set, set, length,
  length-set, ◌==◌, ◌∙◌, arith, if◌then◌else◌,
}
use atarix.Discovery.Database.{
  Database, in_use, find_entry, holds_handle, resource_handle, service_handle,
  instrumentation_handle, database_contains_handle,
}

-- An array of the table's capacity, of which no more entries are in use.
pub record IsTable {A : Type 0} (entries : Option (List A)) (capacity count : ℕ) : Type 0 where
  pub bounded : count ≤ capacity
  pub sized : (xs : List A) → entries ≡ some xs → length xs ≡ capacity

module _ {A : Type 0} (key : A → ℕ) where
  abbrev pub occurrences : List A → ℕ → ℕ
  occurrences [] handle = 0
  occurrences (entry ∷ entries) handle =
      (if key entry == handle then 1 else 0) + occurrences entries handle

  pub occurrences-append :
      (xs : List A) (v : A) (handle : ℕ)
      → occurrences (xs ++ v ∷ []) handle
        ≡ occurrences xs handle + (if key v == handle then 1 else 0)
  occurrences-append [] v handle = ground arith
  occurrences-append (x ∷ xs) v handle = ground (arith, occurrences-append xs v handle)

  pub holds_iff :
      (xs : List A) (handle : ℕ)
      → (holds_handle key xs handle ≡ false) ↔ (occurrences xs handle ≡ 0)
  unfolding holds_handle
  holds_iff [] handle = ground arith
  holds_iff (x ∷ xs) handle = ground (arith, holds_iff xs handle)

  pub find_entry-append :
      (xs : List A) (v : A) (handle : ℕ)
      → occurrences xs (key v) ≡ 0
      → find_entry key (xs ++ v ∷ []) handle
        ≡ (if key v == handle then some v else find_entry key xs handle)
  unfolding find_entry
  find_entry-append [] v handle h = refl
  find_entry-append (x ∷ xs) v handle h = ground (arith, find_entry-append xs v handle)

pub in_use-set :
    {A : Type 0} (xs : List A) (capacity count : ℕ) (v : A)
    → IsTable (some xs) capacity count
    → count < capacity
    → in_use (some (set xs count v)) (count + 1) ≡ in_use (some xs) count ++ v ∷ []
in_use-set xs capacity count v t room = take-set xs count v (omega (arith, t.sized xs refl))

pub set-IsTable :
    {A : Type 0} (xs : List A) (capacity count : ℕ) (v : A)
    → IsTable (some xs) capacity count
    → count < capacity
    → IsTable (some (set xs count v)) capacity (count + 1)
set-IsTable xs capacity count v t room = record {
  bounded = omega arith;
  sized = λ ys e. rw (← some_injective e) (length-set xs count v ∙ t.sized xs refl);
}
  where
    some_injective : {B : Type 0} {a b : B} → some a ≡ some b → a ≡ b
    some_injective e = cc

abbrev pub occurrences_of : Database → ℕ → ℕ
occurrences_of db handle =
    occurrences resource_handle (in_use db.resources db.resource_count) handle
    + occurrences service_handle (in_use db.services db.service_count) handle
    + occurrences instrumentation_handle (in_use db.instrumentation db.instrumentation_count) handle

-- The four tables keep within their arrays, and no handle names two resources, services or
-- instruments.
pub record IsDatabase (db : Database) : Type 0 where
  pub resources : IsTable db.resources db.resource_capacity db.resource_count
  pub services : IsTable db.services db.service_capacity db.service_count
  pub dependencies : IsTable db.dependencies db.dependency_capacity db.dependency_count
  pub instrumentation :
      IsTable db.instrumentation db.instrumentation_capacity db.instrumentation_count
  pub unique : (handle : ℕ) → occurrences_of db handle ≤ 1

-- A handle is contained exactly when it stands in one of the three tables that have handles.
pub contains_iff :
    (db : Database) (handle : ℕ)
    → (database_contains_handle (some db) handle ≡ false) ↔ (occurrences_of db handle ≡ 0)
unfolding database_contains_handle
contains_iff db handle = ground (
  arith,
  holds_iff resource_handle (in_use db.resources db.resource_count) handle,
  holds_iff service_handle (in_use db.services db.service_count) handle,
  holds_iff instrumentation_handle (in_use db.instrumentation db.instrumentation_count) handle,
)
