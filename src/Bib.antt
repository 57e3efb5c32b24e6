-- ===== src/Bib.antt =====
-- The boot information block: its format, the builder and the reader.
pub mod Format
pub mod Bytes
pub mod Layout
pub mod Builder
pub mod Reader
pub mod Checksum
pub mod Roundtrip
