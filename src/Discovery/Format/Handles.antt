-- ===== src/Discovery/Format/Handles.antt =====
-- A handle packs a provider, a type and an instance into 64 bits.
use atarix.Prelude.{ℕ, ◌+◌, ◌*◌, ◌/◌, ◌%◌, ◌^◌, ◌<◌, ◌≡◌, arith, bit_or}
use atarix.Prelude.Bits.Masks.{bit_and_mask, bit_or_above}
use atarix.Discovery.Format.{make_handle, handle_provider16, handle_type, handle_instance}

packed : (p t i : ℕ) → t < 2 ^ 16 → i < 2 ^ 32 → make_handle p t i ≡ p * 2 ^ 48 + t * 2 ^ 32 + i
unfolding make_handle
packed p t i ht hi =
    let high : bit_or (p * 2 ^ 48) (t * 2 ^ 32) ≡ (p * 2 ^ 16 + t) * 2 ^ 32 =
      omega (arith, bit_or_above 48 p (t * 2 ^ 32) (omega arith)) in
    rw high (omega (arith, bit_or_above 32 (p * 2 ^ 16 + t) i hi))

module _ (h : ℕ) where
  provider16_lem : handle_provider16 h ≡ h / 2 ^ 48 % 2 ^ 16
  unfolding handle_provider16
  provider16_lem = omega (arith, bit_and_mask 16 (h / 2 ^ 48))

  type_lem : handle_type h ≡ h / 2 ^ 32 % 2 ^ 16
  unfolding handle_type
  type_lem = omega (arith, bit_and_mask 16 (h / 2 ^ 32))

  instance_lem : handle_instance h ≡ h % 2 ^ 32
  unfolding handle_instance
  instance_lem = omega (arith, bit_and_mask 32 h)

-- The three parts that a handle is made of are read back from it, for parts that fit their fields.
handle_parts-make :
    (provider type instance_id : ℕ)
    → provider < 2 ^ 16
    → type < 2 ^ 16
    → instance_id < 2 ^ 32
    → (handle_provider16 (make_handle provider type instance_id) ≡ provider)
      × (handle_type (make_handle provider type instance_id) ≡ type)
      × (handle_instance (make_handle provider type instance_id) ≡ instance_id)
handle_parts-make p t i hp ht hi =
    rw (provider16_lem, type_lem, instance_lem, packed p t i ht hi)
      (omega arith, omega arith, omega arith)

-- A 64-bit handle is made again from its three parts.
make-handle_parts :
    (handle : ℕ)
    → handle < 2 ^ 64
    → make_handle (handle_provider16 handle) (handle_type handle) (handle_instance handle) ≡ handle
make-handle_parts h fits =
    rw
      (
        packed (handle_provider16 h) (handle_type h) (handle_instance h) (omega (arith, type_lem h))
            (omega (arith, instance_lem h)),
        provider16_lem,
        type_lem,
        instance_lem,
      )
      (omega arith)
