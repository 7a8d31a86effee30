-- ===== src/Protocol/Message.antt =====
-- crates/openplay-protocol/src/message.rs: the data types of the signaling messages. Integers are
-- plain numbers; the JSON encoding is serde's and is not modelled.
pub mod Size
use openplay.Prelude.{ℕ, List, [], ◌∷◌, Bool, true, Option, none, some, Text, codes}

pub record Resolution : Type 0 where
  pub width : ℕ
  pub height : ℕ

pub record Capabilities : Type 0 where
  pub video_codecs : List Text
  pub audio_codecs : List Text
  pub max_resolution : Option Resolution
  pub max_framerate : Option ℕ
  pub supports_cursor : Bool

pub record NegotiatedParams : Type 0 where
  pub video_codec : Text
  pub audio_codec : Option Text
  pub max_bitrate_kbps : ℕ
  pub framerate : ℕ

pub data RejectReason : Type 0 where
  busy version_mismatch no_compatible_codecs not_paired denied : RejectReason

pub data BitrateHintReason : Type 0 where
  packet_loss high_rtt recovery : BitrateHintReason

pub data SessionEndReason : Type 0 where
  user_stopped error timeout network_lost : SessionEndReason

pub data SignalingMessage : Type 0 where
  session_request :
      (sender_id display_name : Text) (protocol_version : ℕ) (capabilities : Capabilities)
      → SignalingMessage
  session_accept : (receiver_id : Text) (negotiated : NegotiatedParams) → SignalingMessage
  session_reject : RejectReason → SignalingMessage
  pairing_challenge : (receiver_pub_ecdh : Text) → SignalingMessage
  pairing_response : (sender_pub_ecdh pin_proof : Text) → SignalingMessage
  pairing_confirm : (confirm receiver_cert_fingerprint : Text) → SignalingMessage
  auth_challenge : (nonce : Text) → SignalingMessage
  auth_response : (nonce proof : Text) → SignalingMessage
  auth_confirm : (proof : Text) → SignalingMessage
  sdp_offer : (sdp : Text) → SignalingMessage
  sdp_answer : (sdp : Text) → SignalingMessage
  ice_candidate :
      (candidate : Text) (sdp_mid : Option Text) (sdp_mline_index : Option ℕ) → SignalingMessage
  ice_complete : SignalingMessage
  bitrate_hint : (target_kbps : ℕ) → BitrateHintReason → SignalingMessage
  ping : (timestamp_ms : ℕ) → SignalingMessage
  pong : (timestamp_ms receiver_timestamp_ms : ℕ) → SignalingMessage
  session_end : SessionEndReason → SignalingMessage

-- `Capabilities::default`.
abbrev pub default_capabilities : Capabilities
default_capabilities = record {
  video_codecs = codes "h264" ∷ [];
  audio_codecs = codes "opus" ∷ [];
  max_resolution = none;
  max_framerate = some 60;
  supports_cursor = true;
}
