-- ===== src/Capability/Engine/Match.antt =====
-- What `atarix_capability_evaluate` answers, by the first record of the table that names the request;
-- and where its ring test and that of the policy decision part.
use Prim.Native.Nat.add
use atarix.Prelude.{
  ℕ, suc, ◌+◌, ◌≤◌, ◌<◌, ◌≡◌, ◌↔◌, ◌∙◌, ap, true, false, some, List, [], ◌∷◌, ◌++◌, arith, length,
}
use atarix.Prelude.Int.{ℤ, pos}
use atarix.Prelude.Word.{has_flag}
use atarix.Ring.{ring_to_wire, wire_supervisor, wire_fabric}
use atarix.Capability.{CapabilityRecord, recovery_only}
use atarix.Capability.Policy.{ring_in_capability_range}
use atarix.Capability.Engine.{
  allow, deny, restrict, recovery, CapabilityRequest, Evaluation, ring_allows, evaluate_match,
  evaluate_from, capability_evaluate,
}

-- The record names the request's target and operation.
abbrev pub Names : CapabilityRecord → CapabilityRequest → Type 0
Names c r = (c.target_handle ≡ r.target_handle) × (c.operation_id ≡ r.operation_id)

abbrev pub NoneNames : List CapabilityRecord → CapabilityRequest → Type 0
NoneNames [] r = Unit
NoneNames (c ∷ cs) r = (¬ (Names c r)) × NoneNames cs r

add_zero : (i : ℕ) → i + 0 ≡ i
add_zero i = omega arith

add_next : (i n : ℕ) → (i + 1) + n ≡ i + suc n
add_next i n = omega arith

evaluate_from-skip :
    (i : ℕ) (before : List CapabilityRecord) (c : CapabilityRecord) (after : List CapabilityRecord)
    (r : CapabilityRequest)
    → NoneNames before r
    → Names c r
    → evaluate_from i (before ++ c ∷ after) r ≡ evaluate_match (i + length before) c r
unfolding evaluate_from
evaluate_from-skip i [] c after r skip h =
    ground (arith, ap (λ (n : ℕ). evaluate_match n c r) (add_zero i))
evaluate_from-skip i (b ∷ before) c after r skip h = ground (
  arith,
  evaluate_from-skip (i + 1) before c after r skip.1 h,
  ap (λ (n : ℕ). evaluate_match n c r) (add_next i (length before)),
)

-- The answer for a record that names the request: too little trust restricts, a ring outside the
-- record's denies, and otherwise the request is allowed, for recovery only if the record says so.
abbrev pub Answer : ℕ → CapabilityRecord → CapabilityRequest → Evaluation → Type 0
Answer i c r e =
    (e.matched_capability ≡ some i)
    × ((e.decision ≡ restrict) ↔ (r.trust_level < c.trust_requirement))
    × ((e.decision ≡ deny) ↔ (
        (c.trust_requirement ≤ r.trust_level)
        × (ring_allows c.minimum_ring c.maximum_ring r.requester_ring ≡ false)))
    × ((e.decision ≡ recovery) ↔ (
        (c.trust_requirement ≤ r.trust_level)
        × (ring_allows c.minimum_ring c.maximum_ring r.requester_ring ≡ true)
        × (has_flag c.flags recovery_only ≡ true)))
    × ((e.decision ≡ allow) ↔ (
        (c.trust_requirement ≤ r.trust_level)
        × (ring_allows c.minimum_ring c.maximum_ring r.requester_ring ≡ true)
        × (has_flag c.flags recovery_only ≡ false)))

evaluate_match-Answer :
    (i : ℕ) (c : CapabilityRecord) (r : CapabilityRequest) → Answer i c r (evaluate_match i c r)
unfolding evaluate_match
evaluate_match-Answer i c r = ground arith

-- The first record of the table that names the request decides, whatever stands behind it: a
-- trust level below the requirement, compared as numbers, restricts, a ring outside the record
-- denies, and otherwise the request is allowed, for recovery only if the record says so. REVOKED
-- is the largest trust level, so such a requester meets every requirement, against
-- docs/trust-model-v1.md.
pub capability_evaluate_first :
    (before : List CapabilityRecord) (c : CapabilityRecord) (after : List CapabilityRecord)
    (r : CapabilityRequest) (old : Evaluation)
    → NoneNames before r
    → Names c r
    → (e : Evaluation) × (capability_evaluate (some (before ++ c ∷ after)) (some r) (some old)
        ≡ (pos 0, some e))
      × Answer (length before) c r e
unfolding capability_evaluate
capability_evaluate_first before c after r old skip h = (
  evaluate_match (length before) c r,
  ap (λ e. (pos 0, some e))
      (evaluate_from-skip 0 before c after r skip h
        ∙ ap (λ (n : ℕ). evaluate_match n c r) (add.zero (length before))),
  evaluate_match-Answer (length before) c r,
)

-- The evaluator and the policy decision agree on a caller's ring, except that the evaluator lets the
-- supervisor use a capability whose range starts at the fabric ring.
ring_tests_agree_iff :
    (c : CapabilityRecord) (ring : ℤ)
    → (ring_allows c.minimum_ring c.maximum_ring ring ≡ ring_in_capability_range ring c)
      ↔ (¬ ((c.minimum_ring ≡ wire_fabric) × (ring_to_wire ring ≡ wire_supervisor)))
unfolding ring_allows ring_in_capability_range
ring_tests_agree_iff c ring = ground arith
