-- ===== src/Sender.antt =====
-- crates/openplay-sender: the sender.
pub mod Request
pub mod Session
pub mod Connect
pub mod Dialogs
pub mod Nalu
pub mod Mirror
pub mod Receivers
pub mod App
