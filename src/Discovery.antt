-- ===== src/Discovery.antt =====
-- The network scanner: src/net/discovery.rs.
pub mod Probe
pub mod Hosts
pub mod Scan
mod Tests
