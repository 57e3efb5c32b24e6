-- ===== src/Capability/Engine.antt =====
-- src/capability/capability_evaluator.c and include/atarix/capability_engine.h: the evaluator that
-- searches a table of capability records for the first one that names the request.
pub mod Match
use atarix.Prelude.{
  ℕ, ◌+◌, Bool, true, not, ◌&&◌, ◌||◌, Option, none, some, List, [], ◌∷◌, ltb, leb, ◌==◌,
  if◌then◌else◌,
}
use atarix.Prelude.Int.{ℤ, pos, negsuc}
use atarix.Prelude.Word.{has_flag}
use atarix.Ring.{ring_to_wire, wire_supervisor, wire_fabric}
use atarix.Capability.{CapabilityRecord, recovery_only}

pub data Decision : Type 0 where
  allow deny restrict recovery : Decision

pub record CapabilityRequest : Type 0 where
  pub target_handle : ℕ
  pub operation_id : ℕ
  pub requester_ring : ℤ
  pub trust_level : ℕ
  pub request_flags : ℕ

-- The matched capability, a pointer into the table, is its index.
pub record Evaluation : Type 0 where
  pub decision : Decision
  pub matched_capability : Option ℕ
  pub reason_code : ℕ

unfoldable pub ring_allows : ℕ → ℕ → ℤ → Bool
ring_allows minimum_ring_wire maximum_ring_wire requester_ring =
    let requester = ring_to_wire requester_ring in
    if minimum_ring_wire == wire_supervisor
    then requester == wire_supervisor
    else if minimum_ring_wire == wire_fabric
    then requester == wire_supervisor || requester == wire_fabric
    else leb minimum_ring_wire requester && leb requester maximum_ring_wire

-- The body of the loop for a record that names the request.
unfoldable pub evaluate_match : ℕ → CapabilityRecord → CapabilityRequest → Evaluation
evaluate_match i cap request =
    if ltb request.trust_level cap.trust_requirement
    then record { decision = restrict; matched_capability = some i; reason_code = 1 }
    else if not (ring_allows cap.minimum_ring cap.maximum_ring request.requester_ring)
    then record { decision = deny; matched_capability = some i; reason_code = 2 }
    else if has_flag cap.flags recovery_only
    then record { decision = recovery; matched_capability = some i; reason_code = 0 }
    else record { decision = allow; matched_capability = some i; reason_code = 0 }

-- The loop from index `i` on, over the rest of the table.
unfoldable pub evaluate_from : ℕ → List CapabilityRecord → CapabilityRequest → Evaluation
evaluate_from i [] request = record { decision = deny; matched_capability = none; reason_code = 3 }
evaluate_from i (cap ∷ caps) request =
    let rest = evaluate_from (i + 1) caps request in
    if not (cap.target_handle == request.target_handle)
    then rest
    else if not (cap.operation_id == request.operation_id)
    then rest
    else evaluate_match i cap request

-- The returned `int`, and what is written to an evaluation that is not NULL.
unfoldable pub capability_evaluate :
    Option (List CapabilityRecord)
    → Option CapabilityRequest
    → Option Evaluation
    → ℤ × Option Evaluation
capability_evaluate none request evaluation = (negsuc 0, evaluation)
capability_evaluate (some caps) none evaluation = (negsuc 0, evaluation)
capability_evaluate (some caps) (some request) none = (negsuc 0, none)
capability_evaluate (some caps) (some request) (some evaluation) =
    (pos 0, some (evaluate_from 0 caps request))
