-- ===== src/Http.antt =====
-- The HTTP client: src/net/http.rs.
pub mod LineReader
pub mod Fields
pub mod Header
pub mod Response
pub mod Client
pub mod Plain
mod Tests
