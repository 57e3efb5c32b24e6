-- ===== src/Tests/Capability.antt =====
-- A capability to read that may be delegated, one delegated from it, and requests that use them.
use atarix.Prelude.{◌≡◌, ◌↔◌, refl, inl, true, false, none, some, [], ◌∷◌, arith}
use atarix.Prelude.Int.{pos}
use atarix.Prelude.Word.{has_flag, not32}
use atarix.Ring.{ring_to_wire, ring_fabric, ring_driver, wire_fabric}
use atarix.Capability.{CapabilityRecord, operation_read}
use atarix.Capability.Policy.{
  PolicyDecision, ok, null, PolicyRequest, PolicyResult, request_capability_revoked,
  request_capability_expired, trust_is_usable, ring_in_capability_range,
  capability_ring_range_valid, capability_record_allows_operation,
  capability_uses_supervisor_authority, capability_record_validate, delegation_checks,
  and_then_status, capability_delegation_validate, policy_checks, policy_outcome, decided,
  policy_evaluate,
}
use atarix.Capability.Policy.Decision.{IsWellFormed, Grants, Allowed, policy_evaluate_allow_iff}
use atarix.Capability.Policy.Delegation.{
  Delegates, delegation_validate_iff, delegation_trans, delegation_attenuates,
  delegation_escalates_to_fabric,
}
use atarix.Capability.Engine
use atarix.Capability.Engine.{CapabilityRequest, Evaluation, ring_allows, capability_evaluate}
use atarix.Capability.Engine.Match.{Answer, capability_evaluate_first}

abbrev parent : CapabilityRecord
parent = record {
  capability_id = 7;
  operation_id = operation_read;
  target_handle = 100;
  minimum_ring = 0;
  maximum_ring = 2;
  flags = 9;
  delegation_mask = 0;
  expiration_or_lifetime = 0;
  issuer_handle = 40;
  trust_requirement = 1;
  reserved = 0;
}

abbrev child : CapabilityRecord
child = record parent { capability_id = 8; minimum_ring = 1 }

abbrev grandchild : CapabilityRecord
grandchild = record child { capability_id = 9; flags = 1 }

abbrev other : CapabilityRecord
other = record parent { target_handle = 99 }

abbrev request : PolicyRequest
request = record {
  caller_principal_id = 5;
  owner_principal_id = 5;
  issuer_principal_id = 6;
  caller_ring = ring_driver;
  issuer_trust = 2;
  owner_trust = 2;
  target_handle = 100;
  operation_id = operation_read;
  current_time = 10;
  request_flags = 0;
  capability = some parent;
}

abbrev old_result : PolicyResult
old_result = record { decision = PolicyDecision.restrict; status = null; matched_capability = none }

policy_evaluate_allow_iff_example :
    Allowed request old_result parent ↔ (IsWellFormed parent × Grants request parent)
policy_evaluate_allow_iff_example = policy_evaluate_allow_iff request old_result parent refl

delegation_validate_iff_example :
    (capability_delegation_validate (some parent) (some child) ≡ ok)
    ↔ (IsWellFormed parent × IsWellFormed child × Delegates parent child)
delegation_validate_iff_example = delegation_validate_iff parent child

delegation_trans_example : capability_delegation_validate (some parent) (some grandchild) ≡ ok
unfolding capability_delegation_validate capability_record_validate capability_ring_range_valid
    delegation_checks capability_uses_supervisor_authority and_then_status has_flag not32
delegation_trans_example =
    delegation_trans parent child grandchild (omega arith) (omega arith) (omega arith) refl refl

delegation_attenuates_example :
    Allowed (record request { capability = some parent }) old_result parent
unfolding capability_delegation_validate capability_record_validate capability_ring_range_valid
    delegation_checks capability_uses_supervisor_authority and_then_status has_flag not32
    policy_evaluate policy_outcome decided policy_checks request_capability_revoked
    request_capability_expired trust_is_usable ring_in_capability_range ring_to_wire
    capability_record_allows_operation
delegation_attenuates_example =
    delegation_attenuates request old_result parent child (omega arith) refl (inl refl)
      (inl (omega arith)) refl

delegation_escalates_to_fabric_example :
    let to_fabric = record parent { minimum_ring = wire_fabric } in
    (capability_delegation_validate (some parent) (some to_fabric) ≡ ok)
    × (ring_in_capability_range ring_fabric to_fabric ≡ true)
    × (ring_in_capability_range ring_fabric parent ≡ false)
unfolding has_flag
delegation_escalates_to_fabric_example =
    delegation_escalates_to_fabric parent (omega arith) (ground arith) refl (omega arith)

abbrev engine_request : CapabilityRequest
engine_request = record {
  target_handle = 100;
  operation_id = operation_read;
  requester_ring = ring_driver;
  trust_level = 3;
  request_flags = 0;
}

abbrev old_evaluation : Evaluation
old_evaluation = record { decision = Engine.restrict; matched_capability = none; reason_code = 0 }

capability_evaluate_first_example :
    (e : Evaluation) × (capability_evaluate
        (some (other ∷ parent ∷ child ∷ []))
        (some engine_request)
        (some old_evaluation)
      ≡ (pos 0, some e))
    × Answer 1 parent engine_request e
capability_evaluate_first_example =
    capability_evaluate_first (other ∷ []) parent (child ∷ []) engine_request old_evaluation
      (ground arith, tt) (refl, refl)
