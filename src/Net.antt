-- ===== src/Net.antt =====
-- src/net/utils.rs and the addresses of src/net/raw/ether.rs: the output buffer, timeouts,
-- addresses.
pub mod Addr
pub mod ByteQueue
pub mod Timeout
pub mod WriteBuffer
mod Tests
