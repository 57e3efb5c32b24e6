-- ===== src/Tools/Mkdiscovery/Published.antt =====
-- What the profiles of mkdiscovery are to publish.
use atarix.Prelude.{
  ℕ, ◌+◌, ◌*◌, ◌^◌, ◌≤◌, ◌≡◌, Bool, false, ◌||◌, Option, none, some, List, [], ◌∷◌, ◌++◌, take,
  length, replicate, ◌==◌, if◌then◌else◌, map,
}
use atarix.Prelude.Outcome.{fault, fail, value}
use atarix.Prelude.Text.{codes, same_text}
use atarix.Discovery.Format.{DiscoveryResult, ok, duplicate_handle}
use atarix.Discovery.Database.{ResourceEntry, ServiceEntry, Database}
use atarix.Discovery.Parse.{parse}
use atarix.Discovery.Validate.{validate}
use atarix.Tools.Mkdiscovery.{
  unknown_profile, does_not_fit, usage, Copied, Profile, refused, built, max_image,
}
use atarix.Tools.Mkdiscovery.Records.{
  resource_cpu, resource_cpu_health, resource_supervisor, resource_logic_analyzer,
  service_cpu_diagnostics, service_cpu_health, service_health, service_instrumentation,
}

-- What a profile is to publish: resources and services of one provider, each as its instance 1.
pub record Published : Type 0 where
  pub provider : ℕ
  pub resource_types : List ℕ
  pub service_ids : List ℕ

abbrev pub published : List ℕ → Option Published
published profile =
    if same_text profile (codes "minimal")
    then some (record { provider = 3; resource_types = []; service_ids = [] })
    else if same_text profile (codes "cpu-card")
    then some (record {
      provider = 3;
      resource_types = resource_cpu ∷ resource_cpu_health ∷ [];
      service_ids = service_cpu_diagnostics ∷ service_cpu_health ∷ [];
    })
    else if same_text profile (codes "supervisor")
    then some (record {
      provider = 1;
      resource_types = resource_supervisor ∷ [];
      service_ids = service_health ∷ [];
    })
    else if same_text profile (codes "instrumentation")
    then some (record {
      provider = 5;
      resource_types = resource_logic_analyzer ∷ [];
      service_ids = service_instrumentation ∷ [];
    })
    else none

abbrev pub resource_entry : ℕ → ℕ → ResourceEntry
resource_entry provider type = record {
  handle = provider * 2 ^ 48 + type * 2 ^ 32 + 1;
  resource_type = type;
  resource_version = 1;
  resource_flags = 0;
  provider_id = provider;
  instance_id = 1;
}

abbrev pub service_entry : ℕ → ℕ → ServiceEntry
service_entry provider id = record {
  handle = provider * 2 ^ 48 + id * 2 ^ 32 + 1;
  service_id = id;
  service_version = 1;
  service_flags = 0;
  provider_id = provider;
  instance_id = 1;
}

-- A database of two resources and two services at most, with the first ones filled.
abbrev pub database_of : List ResourceEntry → List ServiceEntry → Database
database_of resources services = record {
  resources = some (take 2 (resources ++ replicate 2 (resource_entry 0 0)));
  resource_capacity = 2;
  resource_count = length resources;
  services = some (take 2 (services ++ replicate 2 (service_entry 0 0)));
  service_capacity = 2;
  service_count = length services;
  dependencies = none;
  dependency_capacity = 0;
  dependency_count = 0;
  instrumentation = none;
  instrumentation_capacity = 0;
  instrumentation_count = 0;
}

abbrev pub database_for : Published → Database
database_for p =
    database_of (map (resource_entry p.provider) p.resource_types)
      (map (service_entry p.provider) p.service_ids)

-- Whether the first service has the number of a resource, and so its handle.
abbrev pub first_clashes : List ℕ → List ℕ → Bool
first_clashes [] types = false
first_clashes (id ∷ ids) [] = false
first_clashes (id ∷ ids) (type ∷ types) = id == type || first_clashes (id ∷ ids) types

-- What the parser makes of a profile: it stops at a service with a handle that is taken.
abbrev pub parsed : Published → DiscoveryResult × Option Database
parsed p =
    if first_clashes p.service_ids p.resource_types
    then (
      duplicate_handle,
      some (database_of (map (resource_entry p.provider) p.resource_types) []),
    )
    else (ok, some (database_for p))

-- What a profile's name is answered with: an unknown one is refused, and the image of a known one
-- passes the validation, and is parsed into an empty database.
abbrev pub Answered : Option Published → Copied Profile → Type 0
Answered none (value (refused unknown_profile)) = Unit
Answered none (value (refused does_not_fit)) = ⊥
Answered none (value (refused usage)) = ⊥
Answered none (value (built image n)) = ⊥
Answered (some p) (value (built image n)) =
    (n ≤ max_image)
    × (length image ≡ max_image)
    × (validate (some (take n image)) n ≡ value tt)
    × (parse (some (take n image)) n (some (database_of [] [])) ≡ value (parsed p))
Answered (some p) (value (refused message)) = ⊥
Answered p (fail e) = ⊥
Answered p fault = ⊥
