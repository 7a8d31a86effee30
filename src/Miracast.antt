-- ===== src/Miracast.antt =====
-- crates/openplay-miracast: the parameters of Wi-Fi Display and the RTSP control connection.
pub mod WfdParams
pub mod Rtsp
pub mod Session
