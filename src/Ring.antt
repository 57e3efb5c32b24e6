-- ===== src/Ring.antt =====
-- include/atarix/rings.h, include/atarix/ring.h and src/ring/ring.c: the security rings, their wire
-- encoding, and the decision whether one ring may act on another. A ring is the `int` of the C
-- enumeration, so a value that names no ring can be passed, as in the source.
pub mod Access
use atarix.Prelude.{ℕ, Bool, ◌&&◌, ◌||◌, not, leb, ◌==◌, if◌then◌else◌}
use atarix.Prelude.Int.{ℤ, pos, negsuc, leb_ℤ, ltb_ℤ, eqb_ℤ}

abbrev pub ring_supervisor : ℤ
ring_supervisor = negsuc 1

abbrev pub ring_fabric : ℤ
ring_fabric = negsuc 0

abbrev pub ring_kernel : ℤ
ring_kernel = pos 0

abbrev pub ring_driver : ℤ
ring_driver = pos 1

abbrev pub ring_service : ℤ
ring_service = pos 2

abbrev pub ring_application : ℤ
ring_application = pos 3

abbrev pub ring_quarantine : ℤ
ring_quarantine = pos 4

-- The 16-bit wire values.
abbrev pub wire_supervisor : ℕ
wire_supervisor = 0xFFFE

abbrev pub wire_fabric : ℕ
wire_fabric = 0xFFFF

abbrev pub wire_application : ℕ
wire_application = 3

abbrev pub wire_quarantine : ℕ
wire_quarantine = 4

unfoldable pub ring_to_wire : ℤ → ℕ
ring_to_wire ring =
    if eqb_ℤ ring ring_supervisor
    then wire_supervisor
    else if eqb_ℤ ring ring_fabric
    then wire_fabric
    else if eqb_ℤ ring ring_kernel
    then 0
    else if eqb_ℤ ring ring_driver
    then 1
    else if eqb_ℤ ring ring_service
    then 2
    else if eqb_ℤ ring ring_application
    then wire_application
    else if eqb_ℤ ring ring_quarantine
    then wire_quarantine
    else wire_application

-- `atarix_ring_operation_t`, an unsigned enumeration.
abbrev pub operation_observe : ℕ
operation_observe = 0

abbrev pub operation_request : ℕ
operation_request = 1

abbrev pub operation_manage : ℕ
operation_manage = 2

abbrev pub operation_quarantine : ℕ
operation_quarantine = 3

abbrev pub operation_recover : ℕ
operation_recover = 4

pub data RingStatus : Type 0 where
  allow deny invalid_ring invalid_operation : RingStatus

unfoldable pub ring_is_valid : ℤ → Bool
ring_is_valid ring = leb_ℤ ring_supervisor ring && leb_ℤ ring ring_quarantine

unfoldable pub ring_operation_is_valid : ℕ → Bool
ring_operation_is_valid operation =
    leb operation_observe operation && leb operation operation_recover

unfoldable pub ring_can_access : ℤ → ℤ → ℕ → RingStatus
unfolding ring_is_valid ring_operation_is_valid
ring_can_access requester target operation =
    if not (ring_is_valid requester) || not (ring_is_valid target)
    then invalid_ring
    else if not (ring_operation_is_valid operation)
    then invalid_operation
    else if eqb_ℤ requester ring_quarantine
    then deny
    else if eqb_ℤ target ring_quarantine
    then (if eqb_ℤ requester ring_supervisor then allow else deny)
    else if eqb_ℤ requester target
    then allow
    else if ltb_ℤ target requester
    then deny
    else if operation == operation_manage
        || operation == operation_quarantine
        || operation == operation_recover
    then (if eqb_ℤ requester ring_supervisor then allow else deny)
    else allow
