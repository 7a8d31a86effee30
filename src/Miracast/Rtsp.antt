-- ===== src/Miracast/Rtsp.antt =====
-- crates/openplay-miracast/src/rtsp_server.rs: the RTSP control connection to a Miracast sink.
pub mod Message
pub mod Connection
pub mod Negotiate
pub mod Serve
pub mod Framing
mod Examples
