-- ===== src/Engine.antt =====
-- The package engine: streams, their analyzers, and the verdicts of packets.
pub mod PropUpdates
pub mod Udp
pub mod Tcp
pub mod Manager
