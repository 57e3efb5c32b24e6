-- ===== src/Ring/Access.antt =====
-- `atarix_ring_can_access` against the rules of access.
use atarix.Prelude.{ℕ, ◌≤◌, ◌<◌, ◌≡◌, ◌≢◌, ◌↔◌, ◌⊎◌, refl, arith}
use atarix.Prelude.Int.{ℤ, ◌≤ℤ◌, ◌<ℤ◌}
use atarix.Ring.{
  RingStatus, allow, deny, invalid_ring, invalid_operation, ring_can_access, ring_supervisor,
  ring_application, ring_quarantine, operation_request, operation_recover,
}

-- The value names a ring, outside quarantine.
abbrev pub IsActive : ℤ → Type 0
IsActive ring = (ring_supervisor ≤ℤ ring) × (ring ≤ℤ ring_application)

abbrev pub IsRing : ℤ → Type 0
IsRing ring = (ring_supervisor ≤ℤ ring) × (ring ≤ℤ ring_quarantine)

-- A ring acts on itself; the supervisor acts on every ring; an active ring observes and sends
-- requests to a less privileged active ring.
abbrev pub MayAccess : ℤ → ℤ → ℕ → Type 0
MayAccess requester target operation =
    (requester ≡ target) × IsActive requester × (operation ≤ operation_recover)
    ⊎ (requester ≡ ring_supervisor) × IsRing target × (operation ≤ operation_recover)
    ⊎ IsActive requester × IsActive target × (requester <ℤ target) × (operation ≤ operation_request)

-- For all integers and every operation number, `atarix_ring_can_access` allows exactly what the
-- rules of access allow.
pub ring_can_access_iff :
    (requester target : ℤ) (operation : ℕ)
    → (ring_can_access requester target operation ≡ allow) ↔ MayAccess requester target operation
unfolding ring_can_access
ring_can_access_iff requester target operation = ground arith

module _ (requester target : ℤ) (operation : ℕ) where
  invalid_ring_iff :
      (ring_can_access requester target operation ≡ invalid_ring)
      ↔ (¬ (IsRing requester × IsRing target))
  unfolding ring_can_access
  invalid_ring_iff = ground arith

  invalid_operation_iff :
      (ring_can_access requester target operation ≡ invalid_operation)
      ↔ (IsRing requester × IsRing target × (operation_recover < operation))
  unfolding ring_can_access
  invalid_operation_iff = ground arith

  deny_of_rest :
      ring_can_access requester target operation ≢ allow
      → ring_can_access requester target operation ≢ invalid_ring
      → ring_can_access requester target operation ≢ invalid_operation
      → ring_can_access requester target operation ≡ deny
  deny_of_rest = go (ring_can_access requester target operation)
    where
      go : (s : RingStatus) → s ≢ allow → s ≢ invalid_ring → s ≢ invalid_operation → s ≡ deny
      go allow p q r = absurd (p refl)
      go deny p q r = refl
      go invalid_ring p q r = absurd (q refl)
      go invalid_operation p q r = absurd (r refl)

  deny_iff : (ring_can_access requester target operation ≡ deny) ↔ (
      IsRing requester
      × IsRing target
      × (operation ≤ operation_recover)
      × (¬ (MayAccess requester target operation)))
  deny_iff = (
    λ h. ground (
      arith,
      invalid_ring_iff,
      invalid_operation_iff,
      ring_can_access_iff requester target operation,
    ),
    λ h.
        deny_of_rest (λ e. h.3 ((ring_can_access_iff requester target operation).0 e))
          (λ e. invalid_ring_iff.0 e (h.0, h.1)) (λ e. ground (arith, invalid_operation_iff)),
  )

-- The other answers: a value that names no ring is reported first, then an operation number that
-- names no operation, and everything else that the rules do not allow is denied.
ring_can_access_refusals :
    (requester target : ℤ) (operation : ℕ)
    → ((ring_can_access requester target operation ≡ invalid_ring)
        ↔ (¬ (IsRing requester × IsRing target)))
      × ((ring_can_access requester target operation ≡ invalid_operation)
          ↔ (IsRing requester × IsRing target × (operation_recover < operation)))
      × ((ring_can_access requester target operation ≡ deny) ↔ (
          IsRing requester
          × IsRing target
          × (operation ≤ operation_recover)
          × (¬ (MayAccess requester target operation))))
ring_can_access_refusals r t op =
    (invalid_ring_iff r t op, invalid_operation_iff r t op, deny_iff r t op)

MayAccess-trans :
    (a b c : ℤ) (operation : ℕ)
    → MayAccess a b operation
    → MayAccess b c operation
    → MayAccess a c operation
MayAccess-trans a b c operation h k = ground arith

MayAccess-antisymm :
    (a b : ℤ) (operation other : ℕ) → MayAccess a b operation → MayAccess b a other → a ≡ b
MayAccess-antisymm a b operation other h k = ground arith

-- What is allowed through an intermediate ring is allowed directly.
ring_can_access_trans :
    (a b c : ℤ) (operation : ℕ)
    → ring_can_access a b operation ≡ allow
    → ring_can_access b c operation ≡ allow
    → ring_can_access a c operation ≡ allow
ring_can_access_trans a b c operation h k = (ring_can_access_iff a c operation).1 (
    MayAccess-trans a b c operation ((ring_can_access_iff a b operation).0 h)
      ((ring_can_access_iff b c operation).0 k))

-- Two different rings never have access to one another, whatever the two operations are.
ring_can_access_antisymm :
    (a b : ℤ) (operation other : ℕ)
    → ring_can_access a b operation ≡ allow
    → ring_can_access b a other ≡ allow
    → a ≡ b
ring_can_access_antisymm a b operation other h k =
    MayAccess-antisymm a b operation other ((ring_can_access_iff a b operation).0 h)
      ((ring_can_access_iff b a other).0 k)
