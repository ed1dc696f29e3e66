-- ===== src/Rtsp/Sdp.antt =====
-- Session descriptions: src/net/rtsp/sdp.rs.
pub mod Lines
pub mod Parser
