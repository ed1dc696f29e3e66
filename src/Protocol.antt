-- ===== src/Protocol.antt =====
-- src/net/arrow/protocol: the messages of the Arrow Protocol, their byte forms and their parsers.
pub mod Message
pub mod Parser
pub mod Control
pub mod Service
pub mod ServiceTable
pub mod Payload
pub mod ScanReport
mod Tests
