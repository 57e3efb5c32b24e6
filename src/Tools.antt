-- ===== src/Tools.antt =====
-- The programs of tools/.
pub mod Mkdiscovery
pub mod Bibdump
