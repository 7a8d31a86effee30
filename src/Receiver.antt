-- ===== src/Receiver.antt =====
-- crates/openplay-receiver: the session loop of the receiver.
pub mod Loop
