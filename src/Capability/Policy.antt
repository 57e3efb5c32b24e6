-- ===== src/Capability/Policy.antt =====
-- src/capability/capability_policy.c and include/atarix/capability_policy.h: validation of a
-- capability record, delegation, and the policy decision. A pointer that may be NULL is an Option.
pub mod Decision
pub mod Delegation
use atarix.Prelude.{
  ℕ, ◌^◌, Bool, true, false, not, ◌&&◌, ◌||◌, Option, none, some, ltb, leb, ◌==◌, if◌then◌else◌,
  bit_and,
}
use atarix.Prelude.Int.{ℤ}
use atarix.Prelude.Word.{not32, has_flag}
use atarix.Ring.{ring_to_wire, wire_supervisor, wire_fabric, wire_application}
use atarix.Capability.{
  CapabilityRecord, trust_untrusted, trust_revoked, read_allowed, write_allowed, control_allowed,
  delegation_allowed, time_limited, operation_invalid, operation_read, operation_write,
  operation_control,
}

pub data PolicyStatus : Type 0 where
  ok null invalid_request invalid_capability untrusted_issuer untrusted_owner revoked expired :
      PolicyStatus
  ring_denied owner_mismatch delegation_denied resource_denied operation_denied : PolicyStatus

pub data PolicyDecision : Type 0 where
  deny allow restrict recovery_only : PolicyDecision

abbrev pub request_capability_revoked_flag : ℕ
request_capability_revoked_flag = 2 ^ 0

pub record PolicyRequest : Type 0 where
  pub caller_principal_id : ℕ
  pub owner_principal_id : ℕ
  pub issuer_principal_id : ℕ
  pub caller_ring : ℤ
  pub issuer_trust : ℕ
  pub owner_trust : ℕ
  pub target_handle : ℕ
  pub operation_id : ℕ
  pub current_time : ℕ
  pub request_flags : ℕ
  pub capability : Option CapabilityRecord

pub record PolicyResult : Type 0 where
  pub decision : PolicyDecision
  pub status : PolicyStatus
  pub matched_capability : Option CapabilityRecord

unfoldable pub trust_is_usable : ℕ → Bool
trust_is_usable trust = not (trust == trust_untrusted) && not (trust == trust_revoked)

unfoldable pub capability_ring_range_valid : CapabilityRecord → Bool
capability_ring_range_valid capability =
    if capability.minimum_ring == wire_supervisor
    then capability.maximum_ring == wire_supervisor
    else if capability.minimum_ring == wire_fabric
    then capability.maximum_ring == wire_fabric || leb capability.maximum_ring wire_application
    else leb capability.minimum_ring capability.maximum_ring
      && leb capability.maximum_ring wire_application

unfoldable pub ring_in_capability_range : ℤ → CapabilityRecord → Bool
ring_in_capability_range caller_ring capability =
    let caller = ring_to_wire caller_ring in
    if capability.minimum_ring == wire_supervisor
    then caller == wire_supervisor
    else if capability.minimum_ring == wire_fabric
    then caller == wire_fabric
    else leb capability.minimum_ring caller && leb caller capability.maximum_ring

unfoldable pub capability_uses_supervisor_authority : CapabilityRecord → Bool
capability_uses_supervisor_authority capability =
    capability.minimum_ring == wire_supervisor || capability.maximum_ring == wire_supervisor

unfoldable pub request_capability_revoked : PolicyRequest → Bool
request_capability_revoked request = has_flag request.request_flags request_capability_revoked_flag

-- The source reads the capability through the request; both are passed here.
unfoldable pub request_capability_expired : PolicyRequest → CapabilityRecord → Bool
request_capability_expired request capability =
    if not (has_flag capability.flags time_limited)
    then false
    else if capability.expiration_or_lifetime == 0
    then true
    else ltb capability.expiration_or_lifetime request.current_time

unfoldable pub capability_record_validate : Option CapabilityRecord → PolicyStatus
unfolding capability_ring_range_valid
capability_record_validate none = null
capability_record_validate (some capability) =
    if capability.capability_id == 0
    then invalid_capability
    else if capability.operation_id == operation_invalid
    then invalid_capability
    else if not (capability_ring_range_valid capability)
    then invalid_capability
    else if capability.target_handle == 0
    then invalid_capability
    else if capability.issuer_handle == 0
    then invalid_capability
    else ok

unfoldable pub capability_record_allows_operation : Option CapabilityRecord → ℕ → Bool
capability_record_allows_operation none operation_id = false
capability_record_allows_operation (some capability) operation_id =
    if not (capability.operation_id == operation_id)
    then false
    else if operation_id == operation_read
    then has_flag capability.flags read_allowed
    else if operation_id == operation_write
    then has_flag capability.flags write_allowed
    else if operation_id == operation_control
    then has_flag capability.flags control_allowed
    else true

-- The checks of `atarix_capability_delegation_validate` after both records are found valid.
unfoldable pub delegation_checks : CapabilityRecord → CapabilityRecord → PolicyStatus
unfolding capability_uses_supervisor_authority
delegation_checks parent child =
    if not (has_flag parent.flags delegation_allowed)
    then delegation_denied
    else if capability_uses_supervisor_authority parent
        || capability_uses_supervisor_authority child
    then delegation_denied
    else if not (parent.target_handle == child.target_handle)
    then resource_denied
    else if not (parent.operation_id == child.operation_id)
    then operation_denied
    else if not (bit_and child.flags (not32 parent.flags) == 0)
    then delegation_denied
    else if ltb child.minimum_ring parent.minimum_ring || ltb child.maximum_ring parent.minimum_ring
    then delegation_denied
    else if ltb parent.maximum_ring child.maximum_ring
    then delegation_denied
    else ok

-- `status != OK` returns the status.
unfoldable pub and_then_status : PolicyStatus → PolicyStatus → PolicyStatus
and_then_status ok next = next
and_then_status status next = status

unfoldable pub capability_delegation_validate :
    Option CapabilityRecord → Option CapabilityRecord → PolicyStatus
unfolding and_then_status
capability_delegation_validate none child = null
capability_delegation_validate (some parent) none = null
capability_delegation_validate (some parent) (some child) =
    and_then_status (capability_record_validate (some parent))
      (and_then_status (capability_record_validate (some child)) (delegation_checks parent child))

-- The checks of `atarix_policy_evaluate` after the capability is found valid.
unfoldable pub policy_checks : PolicyRequest → CapabilityRecord → PolicyStatus
policy_checks request capability =
    if request_capability_revoked request
    then revoked
    else if request_capability_expired request capability
    then expired
    else if not (trust_is_usable request.issuer_trust)
    then untrusted_issuer
    else if not (trust_is_usable request.owner_trust)
    then untrusted_owner
    else if not (request.caller_principal_id == request.owner_principal_id)
    then owner_mismatch
    else if not (ring_in_capability_range request.caller_ring capability)
    then ring_denied
    else if not (request.target_handle == capability.target_handle)
    then resource_denied
    else if not (capability_record_allows_operation (some capability) request.operation_id)
    then operation_denied
    else ok

-- `result->status = status; return status`, with ALLOW for OK and the initial DENY otherwise.
unfoldable pub decided : PolicyStatus → CapabilityRecord → PolicyResult
decided ok capability = record {
  decision = allow;
  status = ok;
  matched_capability = some capability;
}
decided status capability = record {
  decision = deny;
  status = status;
  matched_capability = some capability;
}

-- The outcome for a capability pointer and the status of its validation.
unfoldable pub policy_outcome :
    PolicyRequest → Option CapabilityRecord → PolicyStatus → PolicyResult
unfolding decided
policy_outcome request none status = record {
  decision = deny;
  status = null;
  matched_capability = none;
}
policy_outcome request (some capability) ok = decided (policy_checks request capability) capability
policy_outcome request (some capability) status = record {
  decision = deny;
  status = status;
  matched_capability = none;
}

-- The returned status, and what is written to a result that is not NULL.
unfoldable pub policy_evaluate :
    Option PolicyRequest → Option PolicyResult → PolicyStatus × Option PolicyResult
unfolding policy_outcome
policy_evaluate none result = (null, result)
policy_evaluate (some request) none = (null, none)
policy_evaluate (some request) (some result) =
    let written =
      policy_outcome request request.capability (capability_record_validate request.capability) in
    (written.status, some written)
