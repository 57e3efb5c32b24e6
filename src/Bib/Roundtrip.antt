-- ===== src/Bib/Roundtrip.antt =====
-- What src/bib/bib_reader.c makes of the blocks that src/bib/bib_builder.c seals.
pub mod Header
pub mod Open
pub mod Sealed
pub mod References
pub mod Tampered
