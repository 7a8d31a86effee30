-- ===== src/Airplay.antt =====
-- crates/openplay-airplay: TLV8 items, SRP, HomeKit pairing, the encrypted control channel, the header
-- of the mirror stream and the time server.
pub mod Tlv8
pub mod Srp
pub mod Stream
pub mod Pairing
pub mod ControlChannel
pub mod MirrorHeader
pub mod MirrorStream
pub mod HttpSession
pub mod Ntp
