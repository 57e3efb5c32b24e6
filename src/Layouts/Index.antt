-- ===== src/Layouts/Index.antt =====
-- include/atarix/index.h: the payloads of index queries and replies, and the tests on their fields.
use atarix.Prelude.{
  ℕ, ◌-◌, ◌/◌, ◌^◌, ◌≤◌, ◌<◌, ◌≡◌, ◌↔◌, Bool, true, ◌||◌, bit_and, bit_or, ◌==◌, arith,
}
use atarix.Prelude.Bits.Masks.{bit_and_mask, bit_and_shifted}

abbrev query_exact : ℕ
query_exact = 0x00

abbrev query_range : ℕ
query_range = 0x01

abbrev query_filter : ℕ
query_filter = 0x02

abbrev query_bitmap : ℕ
query_bitmap = 0x03

abbrev query_ordered : ℕ
query_ordered = 0x04

abbrev projection_audit_window : ℕ
projection_audit_window = 0x01

abbrev projection_human_readable : ℕ
projection_human_readable = 0x02

abbrev projection_diagnostic : ℕ
projection_diagnostic = 0x04

pub record IndexQuery : Type 0 where
  pub registry_id : ℕ
  pub key_hash : ℕ
  pub expected_generation : ℕ
  pub query_type : ℕ
  pub probe_limit : ℕ
  pub projection_flags : ℕ
  pub reserved : ℕ

pub record IndexReply : Type 0 where
  pub resolved_id : ℕ
  pub resolved_generation : ℕ
  pub status : ℕ
  pub match_offset : ℕ
  pub audit_window_id : ℕ
  pub reserved : ℕ

unfoldable pub query_type_known : ℕ → Bool
query_type_known query_type =
    query_type == query_exact
    || query_type == query_range
    || query_type == query_filter
    || query_type == query_bitmap
    || query_type == query_ordered

-- `~known` of an 8-bit word.
unfoldable pub projection_flags_valid : ℕ → Bool
projection_flags_valid flags =
    let known =
      bit_or (bit_or projection_audit_window projection_human_readable) projection_diagnostic in
    bit_and flags (2 ^ 8 - 1 - known) == 0

-- The known types are the numbers up to the last one.
query_type_known_iff : (query_type : ℕ) → (query_type_known query_type ≡ true) ↔ (query_type ≤ 4)
unfolding query_type_known
query_type_known_iff query_type = ground arith

-- The valid flags of 8 bits are those below the first unknown one.
projection_flags_valid_iff :
    (flags : ℕ) → flags < 2 ^ 8 → (projection_flags_valid flags ≡ true) ↔ (flags < 8)
unfolding projection_flags_valid
projection_flags_valid_iff flags h =
    ground (arith, bit_and_shifted 3 flags (2 ^ 5 - 1), bit_and_mask 5 (flags / 2 ^ 3))
