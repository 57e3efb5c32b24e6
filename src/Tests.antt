-- ===== src/Tests.antt =====
-- Runs of the theorems at concrete inputs.
mod Ring
mod Capability
mod Memory
mod Mailbox
mod Sim
mod Bib
mod Discovery
mod Capture
mod Roundtrip
mod Mkdiscovery
