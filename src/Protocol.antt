-- ===== src/Protocol.antt =====
-- crates/openplay-protocol: the signaling messages, their validation, and the connection state
-- machines of sender and receiver.
pub mod Message
pub mod Validate
pub mod StateMachine
