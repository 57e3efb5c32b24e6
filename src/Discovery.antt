-- ===== src/Discovery.antt =====
-- Discovery: the images that providers publish, and the database that is built from them.
pub mod Format
pub mod Database
pub mod Validate
pub mod Parse
