-- ===== src/Connection.antt =====
-- The connection handler of src/net/arrow/mod.rs: the protocol state machine between the Arrow
-- Service and the sessions with local services.
pub mod State
pub mod Session
pub mod Send
pub mod SessionMap
pub mod Requests
pub mod Pump
pub mod Events
pub mod Served
mod Tests
