-- ===== src/Layouts.antt =====
-- Headers that declare structures and tests for other parts of the platform.
pub mod Index
pub mod Directory
pub mod Identity
pub mod Ids
