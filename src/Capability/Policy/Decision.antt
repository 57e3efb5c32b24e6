-- ===== src/Capability/Policy/Decision.antt =====
-- `atarix_policy_evaluate` and `atarix_capability_record_validate` against the conditions of access.
use atarix.Prelude.{ℕ, ◌<◌, ◌≤◌, ◌≡◌, ◌≢◌, ◌↔◌, ◌⊎◌, refl, ap, true, false, none, some, arith}
use atarix.Prelude.Int.{ℤ}
use atarix.Prelude.Word.{has_flag}
use atarix.Ring.{ring_to_wire, ring_quarantine, wire_supervisor, wire_fabric, wire_application}
use atarix.Capability.{
  CapabilityRecord, trust_untrusted, trust_revoked, read_allowed, write_allowed, control_allowed,
  time_limited, operation_read, operation_write, operation_control,
}
use atarix.Capability.Policy.{
  PolicyStatus, ok, null, invalid_capability, deny, allow, PolicyRequest, PolicyResult,
  trust_is_usable, ring_in_capability_range, request_capability_revoked, request_capability_expired,
  request_capability_revoked_flag, capability_record_validate, capability_record_allows_operation,
  policy_checks, policy_outcome, policy_evaluate,
}

-- The ring range is the supervisor's alone, starts at the fabric ring, or lies in the rings 0 to 3.
abbrev pub IsRingRange : ℕ → ℕ → Type 0
IsRingRange lo hi =
    (lo ≡ wire_supervisor) × (hi ≡ wire_supervisor)
    ⊎ (lo ≡ wire_fabric) × ((hi ≡ wire_fabric) ⊎ (hi ≤ wire_application))
    ⊎ (lo ≤ hi) × (hi ≤ wire_application)

abbrev pub IsWellFormed : CapabilityRecord → Type 0
IsWellFormed c =
    (0 < c.capability_id)
    × (0 < c.operation_id)
    × (0 < c.target_handle)
    × (0 < c.issuer_handle)
    × IsRingRange c.minimum_ring c.maximum_ring

-- A record is accepted exactly when it is well formed; every other record, and no record at all,
-- has the status that says so.
pub capability_record_validate_iff :
    (c : CapabilityRecord)
    → ((capability_record_validate (some c) ≡ ok) ↔ IsWellFormed c)
      × ((capability_record_validate (some c) ≡ invalid_capability) ↔ (¬ (IsWellFormed c)))
      × (capability_record_validate none ≡ null)
unfolding capability_record_validate
capability_record_validate_iff c = (ground arith, ground arith, refl)

abbrev pub IsUsable : ℕ → Type 0
IsUsable trust = (trust ≢ trust_untrusted) × (trust ≢ trust_revoked)

-- Not limited in time, or within a limit that is set.
abbrev pub IsLive : ℕ → CapabilityRecord → Type 0
IsLive now c =
    (has_flag c.flags time_limited ≡ false)
    ⊎ (0 < c.expiration_or_lifetime) × (now ≤ c.expiration_or_lifetime)

-- The wire value lies in the capability's range; the two system rings stand alone.
abbrev pub InRingRange : ℕ → CapabilityRecord → Type 0
InRingRange caller c =
    (c.minimum_ring ≡ wire_supervisor) × (caller ≡ wire_supervisor)
    ⊎ (c.minimum_ring ≡ wire_fabric) × (caller ≡ wire_fabric)
    ⊎ (c.minimum_ring < wire_supervisor) × (c.minimum_ring ≤ caller) × (caller ≤ c.maximum_ring)

-- The operation is the record's, and a read, write or control has its flag.
abbrev pub Permits : CapabilityRecord → ℕ → Type 0
Permits c operation =
    (c.operation_id ≡ operation)
    × ((operation ≢ operation_read) ⊎ (has_flag c.flags read_allowed ≡ true))
    × ((operation ≢ operation_write) ⊎ (has_flag c.flags write_allowed ≡ true))
    × ((operation ≢ operation_control) ⊎ (has_flag c.flags control_allowed ≡ true))

-- All conditions of access of a request by a capability.
pub record Grants (r : PolicyRequest) (c : CapabilityRecord) : Type 0 where
  pub not_revoked : has_flag r.request_flags request_capability_revoked_flag ≡ false
  pub live : IsLive r.current_time c
  pub issuer : IsUsable r.issuer_trust
  pub owner : IsUsable r.owner_trust
  pub owned : r.caller_principal_id ≡ r.owner_principal_id
  pub ring : InRingRange (ring_to_wire r.caller_ring) c
  pub resource : r.target_handle ≡ c.target_handle
  pub operation : Permits c r.operation_id

expired_iff :
    (r : PolicyRequest) (c : CapabilityRecord)
    → (request_capability_expired r c ≡ false) ↔ IsLive r.current_time c
unfolding request_capability_expired
expired_iff r c = ground arith

IsUsable-iff : (t : ℕ) → (trust_is_usable t ≡ true) ↔ IsUsable t
unfolding trust_is_usable
IsUsable-iff t = ground arith

in_range_iff :
    (ring : ℤ) (c : CapabilityRecord)
    → IsWellFormed c
    → (ring_in_capability_range ring c ≡ true) ↔ InRingRange (ring_to_wire ring) c
unfolding ring_in_capability_range
in_range_iff ring c w = ground arith

Permits-iff :
    (c : CapabilityRecord) (operation : ℕ)
    → (capability_record_allows_operation (some c) operation ≡ true) ↔ Permits c operation
unfolding capability_record_allows_operation
Permits-iff c operation = ground arith

-- The tests that `policy_checks` passes, one by one.
record Passes (r : PolicyRequest) (c : CapabilityRecord) : Type 0 where
  not_revoked : request_capability_revoked r ≡ false
  live : request_capability_expired r c ≡ false
  issuer : trust_is_usable r.issuer_trust ≡ true
  owner : trust_is_usable r.owner_trust ≡ true
  owned : r.caller_principal_id ≡ r.owner_principal_id
  ring : ring_in_capability_range r.caller_ring c ≡ true
  resource : r.target_handle ≡ c.target_handle
  operation : capability_record_allows_operation (some c) r.operation_id ≡ true

policy_checks→Passes :
    (r : PolicyRequest) (c : CapabilityRecord) → policy_checks r c ≡ ok → Passes r c
unfolding policy_checks
policy_checks→Passes r c h = ground arith

Passes→policy_checks :
    (r : PolicyRequest) (c : CapabilityRecord) → Passes r c → policy_checks r c ≡ ok
unfolding policy_checks
Passes→policy_checks r c h = ground arith

module _ (r : PolicyRequest) (c : CapabilityRecord) (w : IsWellFormed c) where
  Passes→Grants : Passes r c → Grants r c
  unfolding request_capability_revoked
  Passes→Grants h = record {
    not_revoked = h.not_revoked;
    live = (expired_iff r c).0 h.live;
    issuer = (IsUsable-iff r.issuer_trust).0 h.issuer;
    owner = (IsUsable-iff r.owner_trust).0 h.owner;
    owned = h.owned;
    ring = (in_range_iff r.caller_ring c w).0 h.ring;
    resource = h.resource;
    operation = (Permits-iff c r.operation_id).0 h.operation;
  }

  Grants→Passes : Grants r c → Passes r c
  unfolding request_capability_revoked
  Grants→Passes h = record {
    not_revoked = h.not_revoked;
    live = (expired_iff r c).1 h.live;
    issuer = (IsUsable-iff r.issuer_trust).1 h.issuer;
    owner = (IsUsable-iff r.owner_trust).1 h.owner;
    owned = h.owned;
    ring = (in_range_iff r.caller_ring c w).1 h.ring;
    resource = h.resource;
    operation = (Permits-iff c r.operation_id).1 h.operation;
  }

quarantine_wire : ring_to_wire ring_quarantine ≡ 4
unfolding ring_to_wire
quarantine_wire = refl

-- A request with this capability is answered ALLOW, with the capability as the match.
abbrev pub Allowed : PolicyRequest → PolicyResult → CapabilityRecord → Type 0
Allowed r result c =
    policy_evaluate (some r) (some result)
    ≡ (ok, some (record { decision = allow; status = ok; matched_capability = some c }))

-- What is written for a capability, by the statuses of its validation and of the later checks.
outcome_cases :
    (r : PolicyRequest) (c : CapabilityRecord) (validated : PolicyStatus)
    → let written = policy_outcome r (some c) validated in
      ((written ≡ record { decision = allow; status = ok; matched_capability = some c })
          × (validated ≡ ok)
          × (policy_checks r c ≡ ok)
        ⊎ (written.decision ≡ deny)
          × (written.status ≢ ok)
          × ((validated ≢ ok) ⊎ (policy_checks r c ≢ ok)))
unfolding policy_outcome
outcome_cases r c validated = ground arith

module _ (r : PolicyRequest) (result : PolicyResult) (c : CapabilityRecord)
    (has : r.capability ≡ some c) where
  evaluate_by_checks :
      Allowed r result c ↔ ((capability_record_validate (some c) ≡ ok) × (policy_checks r c ≡ ok))
  unfolding policy_evaluate
  evaluate_by_checks = ground (arith, outcome_cases r c (capability_record_validate (some c)))

-- The policy decision answers ALLOW with the status OK and the capability as the matched one
-- exactly when the capability is well formed and the request meets every condition that the code
-- tests: not revoked, not limited in time or within a limit other than zero, trust of issuer and
-- owner neither UNTRUSTED nor REVOKED, caller is the owner, ring in range, same resource,
-- permitted operation. The capability's trust requirement is not among them, which is less than
-- docs/capability-record-format-v1.md asks for.
pub policy_evaluate_allow_iff :
    (r : PolicyRequest) (result : PolicyResult) (c : CapabilityRecord)
    → r.capability ≡ some c
    → Allowed r result c ↔ (IsWellFormed c × Grants r c)
policy_evaluate_allow_iff r result c has = (
  λ h.
      let (valid, checked) = (evaluate_by_checks r result c has).0 h in
      let w = (capability_record_validate_iff c).0.0 valid in
      (w, Passes→Grants r c w (policy_checks→Passes r c checked)),
  λ (w, g).
      (evaluate_by_checks r result c has).1 (
        (capability_record_validate_iff c).0.1 w,
        Passes→policy_checks r c (Grants→Passes r c w g),
      ),
)

-- A quarantined caller is never allowed, whatever its capability says.
policy_denies_quarantine :
    (r : PolicyRequest) (result : PolicyResult) (c : CapabilityRecord)
    → r.capability ≡ some c
    → r.caller_ring ≡ ring_quarantine
    → ¬ (Allowed r result c)
policy_denies_quarantine r result c has ring h =
    let (w, g) = (policy_evaluate_allow_iff r result c has).0 h in
    ground (arith, g.ring, ap ring_to_wire ring, quarantine_wire)
