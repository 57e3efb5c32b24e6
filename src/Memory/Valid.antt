-- ===== src/Memory/Valid.antt =====
-- Which descriptors `atarix_memory_descriptor_validate` accepts. The flag test is the bit trick
-- `forms & (forms - 1)`, shown to mean that one move form is named.
use native.Mathlib.Decide.{dec_lt}
use atarix.Prelude.{
  ℕ, ◌-◌, ◌*◌, ◌/◌, ◌^◌, ◌≤◌, ◌<◌, ◌≡◌, ◌≢◌, ◌↔◌, ◌⊎◌, refl, Bool, true, not, ◌||◌, some, arith,
  bit_and, ◌==◌, if◌then◌else◌,
}
use atarix.Prelude.Table.{holds_below, holds_below_at}
use atarix.Prelude.Bits.Masks.{bit_and_mask, bit_and_shifted}
use atarix.Prelude.Word.{not32}
use atarix.Memory.{
  MemoryDescriptor, ok, move_copy, move_move, move_map, move_share, move_fabric, move_zero_copy,
  move_form_mask, descriptor_magic, descriptor_version, descriptor_max_length,
  exactly_one_move_form, memory_descriptor_validate,
}

abbrev pub IsMoveForm : ℕ → Type 0
IsMoveForm flags =
    (flags ≡ move_copy)
    ⊎ (flags ≡ move_move)
    ⊎ (flags ≡ move_map)
    ⊎ (flags ≡ move_share)
    ⊎ (flags ≡ move_fabric)
    ⊎ (flags ≡ move_zero_copy)

is_move_form : ℕ → Bool
is_move_form f = f == 1 || f == 2 || f == 4 || f == 8 || f == 16 || f == 32

below_64 : ℕ → Bool
unfolding is_move_form
below_64 f = if exactly_one_move_form f then is_move_form f else not (is_move_form f)

below_64_table : holds_below 64 below_64 ≡ true
unfolding holds_below below_64 exactly_one_move_form
below_64_table = refl

-- A flag above the six forms is refused by the last test.
high_flags : (f : ℕ) → f < 2 ^ 32 → 64 ≤ f → bit_and f (not32 move_form_mask) ≢ 0
high_flags f fits high e =
    let split : bit_and f (not32 move_form_mask) ≡ bit_and (f / 2 ^ 6) (2 ^ 26 - 1) * 2 ^ 6 =
      bit_and_shifted 6 f (2 ^ 26 - 1) in
    omega (arith, split, bit_and_mask 26 (f / 2 ^ 6))

exactly_one_move_form_iff : (f : ℕ) → f < 2 ^ 32 → (exactly_one_move_form f ≡ true) ↔ IsMoveForm f
exactly_one_move_form_iff f fits = elim (dec_lt f 64) [
  | yes low ↦
      let row : below_64 f ≡ true = holds_below_at 64 below_64 f below_64_table low in
      unfold below_64 is_move_form in ground arith
  | no high ↦ unfold exactly_one_move_form in ground (arith, high_flags f fits)
]

-- All that a valid descriptor satisfies.
abbrev pub IsValid : MemoryDescriptor → Type 0
IsValid d =
    (d.magic ≡ descriptor_magic)
    × (d.version ≡ descriptor_version)
    × (0 < d.length)
    × (d.length ≤ descriptor_max_length)
    × (0 < d.capability_id)
    × (0 < d.source_object)
    × (0 < d.destination_object)
    × IsMoveForm d.flags

-- A descriptor with 32-bit flags is accepted exactly when it is of this version, has a length within
-- the limit, names a capability, a source and a destination, and names one of the six move forms.
pub memory_descriptor_validate_iff :
    (d : MemoryDescriptor)
    → d.flags < 2 ^ 32
    → (memory_descriptor_validate (some d) ≡ ok) ↔ IsValid d
unfolding memory_descriptor_validate
memory_descriptor_validate_iff d fits = ground (arith, exactly_one_move_form_iff d.flags fits)
