-- ===== src/Signaling.antt =====
-- crates/openplay-signaling/src/server.rs: connections and the messages that they deliver.
pub mod Server
pub mod Client
use openplay.Prelude.{ℕ}
use openplay.Protocol.Message.{SignalingMessage}

-- The sending half of the reply queue is a channel of tokio's; a handle is known by its
-- connection. `send` never blocks, and its callers do not read its result.
pub record ConnectionHandle : Type 0 where
  pub id : ℕ

pub record IncomingMessage : Type 0 where
  pub message : SignalingMessage
  pub reply : ConnectionHandle
  pub connection : ℕ
  pub peer : ℕ
