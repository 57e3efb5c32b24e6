-- ===== src/Bib/Bytes.antt =====
-- Writes into the block's buffer, and the little-endian encodings of bib_builder.c.
use atarix.Prelude.{ℕ, suc, ◌+◌, ◌/◌, ◌%◌, ◌^◌, List, [], ◌∷◌, set}

-- `memcpy` and `memset` write byte after byte from an offset on.
unfoldable pub write_bytes : List ℕ → ℕ → List ℕ → List ℕ
write_bytes buffer p [] = buffer
write_bytes buffer p (b ∷ bytes) = write_bytes (set buffer p b) (suc p) bytes

-- The casts to `uint8_t` of the shifted value.
abbrev pub le16 : ℕ → List ℕ
le16 value = value % 2 ^ 8 ∷ value / 2 ^ 8 % 2 ^ 8 ∷ []

abbrev pub le32 : ℕ → List ℕ
le32 value =
    value % 2 ^ 8 ∷ value / 2 ^ 8 % 2 ^ 8 ∷ value / 2 ^ 16 % 2 ^ 8 ∷ value / 2 ^ 24 % 2 ^ 8 ∷ []

unfoldable pub write_le16 : List ℕ → ℕ → ℕ → List ℕ
unfolding write_bytes
write_le16 buffer p value = write_bytes buffer p (le16 value)

unfoldable pub write_le32 : List ℕ → ℕ → ℕ → List ℕ
unfolding write_bytes
write_le32 buffer p value = write_bytes buffer p (le32 value)

unfoldable pub write_le64 : List ℕ → ℕ → ℕ → List ℕ
unfolding write_le32
write_le64 buffer p value =
    write_le32 (write_le32 buffer p (value % 2 ^ 32)) (p + 4) (value / 2 ^ 32 % 2 ^ 32)
