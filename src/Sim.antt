-- ===== src/Sim.antt =====
-- The simulated fabric: nodes, the fabric's table of nodes, and mailbox endpoints.
pub mod Node
pub mod Fabric
pub mod Endpoint
pub mod Capture
