-- ===== src/Rtsp.antt =====
-- The RTSP client: src/net/rtsp/mod.rs, and the session descriptions of src/net/rtsp/sdp.rs.
pub mod Header
pub mod Response
pub mod Client
pub mod Sdp
pub mod Plain
mod Tests
