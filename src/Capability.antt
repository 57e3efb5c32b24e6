-- ===== src/Capability.antt =====
-- include/atarix/capability.h and include/atarix/operations.h: the capability record, its flags and
-- the operations. The children model the two deciders of src/capability/.
pub mod Policy
pub mod Engine
use atarix.Prelude.{ℕ, ◌^◌, ◌<◌, Bool, leb}
use atarix.Prelude.Word.{has_flag}

abbrev pub trust_untrusted : ℕ
trust_untrusted = 0

abbrev pub trust_revoked : ℕ
trust_revoked = 7

abbrev pub read_allowed : ℕ
read_allowed = 2 ^ 0

abbrev pub write_allowed : ℕ
write_allowed = 2 ^ 1

abbrev pub control_allowed : ℕ
control_allowed = 2 ^ 2

abbrev pub delegation_allowed : ℕ
delegation_allowed = 2 ^ 3

abbrev pub time_limited : ℕ
time_limited = 2 ^ 5

abbrev pub recovery_only : ℕ
recovery_only = 2 ^ 7

abbrev pub destructive_operation : ℕ
destructive_operation = 2 ^ 8

abbrev pub requires_supervisor_approval : ℕ
requires_supervisor_approval = 2 ^ 9

abbrev pub operation_invalid : ℕ
operation_invalid = 0

abbrev pub operation_read : ℕ
operation_read = 1

abbrev pub operation_write : ℕ
operation_write = 2

abbrev pub operation_control : ℕ
operation_control = 3

pub record CapabilityRecord : Type 0 where
  pub capability_id : ℕ
  pub operation_id : ℕ
  pub target_handle : ℕ
  pub minimum_ring : ℕ
  pub maximum_ring : ℕ
  pub flags : ℕ
  pub delegation_mask : ℕ
  pub expiration_or_lifetime : ℕ
  pub issuer_handle : ℕ
  pub trust_requirement : ℕ
  pub reserved : ℕ

unfoldable pub capability_is_destructive : ℕ → Bool
capability_is_destructive flags = has_flag flags destructive_operation

unfoldable pub capability_requires_supervisor : ℕ → Bool
capability_requires_supervisor flags = has_flag flags requires_supervisor_approval
