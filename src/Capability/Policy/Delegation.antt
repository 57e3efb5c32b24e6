-- ===== src/Capability/Policy/Delegation.antt =====
-- `atarix_capability_delegation_validate`: what an accepted delegation means for the policy decision.
use atarix.Prelude.{
  ℕ, ◌<◌, ◌≤◌, ◌^◌, ◌≡◌, ◌≢◌, ◌↔◌, ◌⊎◌, inl, inr, refl, sym, ◌∙◌, true, false, some, arith, bit_and,
}
use atarix.Prelude.Bits.Masks.{bit_and_complement_self, bit_and_complement_trans}
use atarix.Prelude.Word.{not32, has_flag, has_flag_subset}
use atarix.Ring.{ring_to_wire, ring_fabric, wire_supervisor, wire_fabric, wire_application}
use atarix.Capability.{CapabilityRecord, delegation_allowed}
use atarix.Capability.Policy.{
  ok, PolicyRequest, PolicyResult, ring_in_capability_range, capability_record_validate,
  delegation_checks, capability_delegation_validate,
}
use atarix.Capability.Policy.Decision.{
  IsWellFormed, IsLive, InRingRange, Permits, Allowed, capability_record_validate_iff,
  policy_evaluate_allow_iff,
}

-- The child acts on the parent's resource by the parent's operation, with no flag that the parent
-- lacks and a range of wire values inside the parent's; neither uses the supervisor ring.
pub record Delegates (parent child : CapabilityRecord) : Type 0 where
  pub allowed : has_flag parent.flags delegation_allowed ≡ true
  pub parent_minimum : parent.minimum_ring ≢ wire_supervisor
  pub parent_maximum : parent.maximum_ring ≢ wire_supervisor
  pub child_minimum : child.minimum_ring ≢ wire_supervisor
  pub child_maximum : child.maximum_ring ≢ wire_supervisor
  pub resource : parent.target_handle ≡ child.target_handle
  pub operation : parent.operation_id ≡ child.operation_id
  pub flags : bit_and child.flags (not32 parent.flags) ≡ 0
  pub lower : parent.minimum_ring ≤ child.minimum_ring
  pub meets : parent.minimum_ring ≤ child.maximum_ring
  pub upper : child.maximum_ring ≤ parent.maximum_ring

checks_iff :
    (parent child : CapabilityRecord)
    → (delegation_checks parent child ≡ ok) ↔ Delegates parent child
unfolding delegation_checks
checks_iff parent child = ground arith

module _ (parent child : CapabilityRecord) where
  validate_iff : (capability_delegation_validate (some parent) (some child) ≡ ok) ↔ (
      (capability_record_validate (some parent) ≡ ok)
      × (capability_record_validate (some child) ≡ ok)
      × (delegation_checks parent child ≡ ok))
  unfolding capability_delegation_validate
  validate_iff = ground arith

-- A delegation is accepted exactly when both records are well formed, the parent has the flag
-- DELEGATION_ALLOWED, neither record has the supervisor ring as a bound of its range, both name
-- the same resource and operation, the child has no flag that the parent has not, and the wire
-- values of the child's range lie within those of the parent's. Delegation mask, lifetime and
-- trust requirement are not compared.
pub delegation_validate_iff :
    (parent child : CapabilityRecord)
    → (capability_delegation_validate (some parent) (some child) ≡ ok)
      ↔ (IsWellFormed parent × IsWellFormed child × Delegates parent child)
delegation_validate_iff parent child = (
  λ h.
      let (p, c, d) = (validate_iff parent child).0 h in
      (
        (capability_record_validate_iff parent).0.0 p,
        (capability_record_validate_iff child).0.0 c,
        (checks_iff parent child).0 d,
      ),
  λ (p, c, d). (validate_iff parent child).1 (
    (capability_record_validate_iff parent).0.1 p,
    (capability_record_validate_iff child).0.1 c,
    (checks_iff parent child).1 d,
  ),
)

Delegates-trans :
    (a b c : CapabilityRecord)
    → a.flags < 2 ^ 32
    → b.flags < 2 ^ 32
    → c.flags < 2 ^ 32
    → Delegates a b
    → Delegates b c
    → Delegates a c
Delegates-trans a b c fa fb fc d e = record {
  allowed = d.allowed;
  parent_minimum = d.parent_minimum;
  parent_maximum = d.parent_maximum;
  child_minimum = e.child_minimum;
  child_maximum = e.child_maximum;
  resource = d.resource ∙ e.resource;
  operation = d.operation ∙ e.operation;
  flags = bit_and_complement_trans 32 c.flags b.flags a.flags fc fb fa e.flags d.flags;
  lower = omega arith;
  meets = omega arith;
  upper = omega arith;
}

-- Delegating twice gives nothing that one delegation from the first capability would not give, for
-- 32-bit flags.
pub delegation_trans :
    (a b c : CapabilityRecord)
    → a.flags < 2 ^ 32
    → b.flags < 2 ^ 32
    → c.flags < 2 ^ 32
    → capability_delegation_validate (some a) (some b) ≡ ok
    → capability_delegation_validate (some b) (some c) ≡ ok
    → capability_delegation_validate (some a) (some c) ≡ ok
delegation_trans a b c fa fb fc ab bc =
    let (wa, wb, d) = (delegation_validate_iff a b).0 ab in
    let (wb', wc, e) = (delegation_validate_iff b c).0 bc in
    (delegation_validate_iff a c).1 (wa, wc, Delegates-trans a b c fa fb fc d e)

InRingRange-parent :
    (caller : ℕ) (parent child : CapabilityRecord)
    → Delegates parent child
    → (child.minimum_ring ≢ wire_fabric) ⊎ (parent.minimum_ring ≡ wire_fabric)
    → InRingRange caller child
    → InRingRange caller parent
InRingRange-parent caller parent child d ring h = ground arith

Permits-parent :
    (parent child : CapabilityRecord) (operation : ℕ)
    → parent.flags < 2 ^ 32
    → Delegates parent child
    → Permits child operation
    → Permits parent operation
Permits-parent parent child operation fits d (same, r, w, c) = (
  d.operation ∙ same,
  inherit 0 (omega arith) r,
  inherit 1 (omega arith) w,
  inherit 2 (omega arith) c,
)
  where
    inherit :
        {P : Type 0} (k : ℕ)
        → k < 32
        → P ⊎ (has_flag child.flags (2 ^ k) ≡ true)
        → P ⊎ (has_flag parent.flags (2 ^ k) ≡ true)
    inherit k lt (inl p) = inl p
    inherit k lt (inr e) = inr (has_flag_subset k child.flags parent.flags lt fits d.flags e)

-- Whoever the child of an accepted delegation lets in, the parent lets in by the same request, if
-- the parent has not expired, its flags fit 32 bits, and the child does not move the range to the
-- fabric ring.
pub delegation_attenuates :
    (r : PolicyRequest) (result : PolicyResult) (parent child : CapabilityRecord)
    → parent.flags < 2 ^ 32
    → capability_delegation_validate (some parent) (some child) ≡ ok
    → IsLive r.current_time parent
    → (child.minimum_ring ≢ wire_fabric) ⊎ (parent.minimum_ring ≡ wire_fabric)
    → Allowed (record r { capability = some child }) result child
    → Allowed (record r { capability = some parent }) result parent
delegation_attenuates r result parent child fits h live ring allowed =
    let (wp, wc, d) = (delegation_validate_iff parent child).0 h in
    let (_, g) =
      (policy_evaluate_allow_iff (record r { capability = some child }) result child refl).0
        allowed in
    (policy_evaluate_allow_iff (record r { capability = some parent }) result parent refl).1 (
      wp,
      record {
        not_revoked = g.not_revoked;
        live = live;
        issuer = g.issuer;
        owner = g.owner;
        owned = g.owned;
        ring = InRingRange-parent (ring_to_wire r.caller_ring) parent child d ring g.ring;
        resource = g.resource ∙ sym d.resource;
        operation = Permits-parent parent child r.operation_id fits d g.operation;
      },
    )

-- The lifetime, the delegation mask and the trust requirement of the child are not looked at.
delegation_ignores :
    (parent child : CapabilityRecord) (lifetime mask trust : ℕ)
    → capability_delegation_validate (some parent) (
        some (record child {
          expiration_or_lifetime = lifetime;
          delegation_mask = mask;
          trust_requirement = trust;
        }))
      ≡ capability_delegation_validate (some parent) (some child)
unfolding capability_delegation_validate capability_record_validate delegation_checks
delegation_ignores parent child lifetime mask trust = refl

fabric_wire : ring_to_wire ring_fabric ≡ wire_fabric
unfolding ring_to_wire
fabric_wire = refl

-- Each well-formed delegable capability with 32-bit flags for the rings 0 to 3 can be delegated to the fabric ring, which is
-- outside its own range.
pub delegation_escalates_to_fabric :
    (parent : CapabilityRecord)
    → parent.flags < 2 ^ 32
    → IsWellFormed parent
    → has_flag parent.flags delegation_allowed ≡ true
    → parent.minimum_ring ≤ wire_application
    → let child = record parent { minimum_ring = wire_fabric } in
      (capability_delegation_validate (some parent) (some child) ≡ ok)
      × (ring_in_capability_range ring_fabric child ≡ true)
      × (ring_in_capability_range ring_fabric parent ≡ false)
delegation_escalates_to_fabric parent fits w delegable low = (
  (delegation_validate_iff parent (record parent { minimum_ring = wire_fabric })).1
      (w, omega arith, to_fabric),
  unfold ring_in_capability_range in rw fabric_wire,
  unfold ring_in_capability_range in rw fabric_wire (ground arith),
)
  where
    to_fabric : Delegates parent (record parent { minimum_ring = wire_fabric })
    to_fabric = record {
      allowed = delegable;
      parent_minimum = omega arith;
      parent_maximum = omega arith;
      child_minimum = omega arith;
      child_maximum = omega arith;
      resource = refl;
      operation = refl;
      flags = bit_and_complement_self 32 parent.flags fits;
      lower = omega arith;
      meets = omega arith;
      upper = omega arith;
    }
