-- ===== src/Commands.antt =====
-- The main program: src/main.rs.
pub mod Seconds
pub mod Retry
pub mod Parser
pub mod Arguments
pub mod Services
pub mod Handler
mod Tests
