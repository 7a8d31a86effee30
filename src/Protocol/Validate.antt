-- ===== src/Protocol/Validate.antt =====
-- `SignalingMessage::validate` and its checks (crates/openplay-protocol/src/message.rs). A
-- `ValidationError` holds a formatted message; here it is the check that failed, with the field.
pub mod Bounds
mod Examples
use openplay.Prelude.{
  ℕ, ◌*◌, List, [], ◌∷◌, Option, none, some, Text, codes, utf8_len, is_control, length, any, ltb,
  if◌then◌else◌, Result, ok, err, ◌>>=◌, ◌>>◌,
}
use openplay.Protocol.Message.{
  SignalingMessage, session_request, session_accept, session_reject, pairing_challenge,
  pairing_response, pairing_confirm, auth_challenge, auth_response, auth_confirm, sdp_offer,
  sdp_answer, ice_candidate, ice_complete, bitrate_hint, ping, pong, session_end,
}

abbrev pub max_name_chars : ℕ
max_name_chars = 64

abbrev pub max_sdp_bytes : ℕ
max_sdp_bytes = 16 * 1024

abbrev pub max_candidate_bytes : ℕ
max_candidate_bytes = 1024

abbrev pub max_proof_bytes : ℕ
max_proof_bytes = 1024

abbrev pub max_codecs : ℕ
max_codecs = 16

abbrev pub max_codec_chars : ℕ
max_codec_chars = 32

pub data ValidationError : Type 0 where
  empty : (field : Text) → ValidationError
  too_many_chars : (field : Text) (chars : ℕ) → ValidationError
  control_chars : (field : Text) → ValidationError
  too_many_bytes : (field : Text) (max len : ℕ) → ValidationError
  too_many_codecs : (field : Text) (codecs : ℕ) → ValidationError
  codec_too_long : (field : Text) (chars : ℕ) → ValidationError

abbrev pub Validation : Type 0
Validation = Result (Unit {0}) ValidationError

unfoldable pub check_name : Text → Text → Validation
check_name field [] = err (empty field)
check_name field (c ∷ t) =
    if ltb max_name_chars (length (c ∷ t))
    then err (too_many_chars field (length (c ∷ t)))
    else if any is_control (c ∷ t)
    then err (control_chars field)
    else ok tt

unfoldable pub check_len : Text → ℕ → ℕ → Validation
check_len field len max = if ltb max len then err (too_many_bytes field max len) else ok tt

-- The `for` loop of `check_codecs`.
unfoldable pub check_codec_lengths : Text → List Text → Validation
check_codec_lengths field [] = ok tt
check_codec_lengths field (c ∷ cs) =
    let rest = check_codec_lengths field cs in
    if ltb max_codec_chars (length c) then err (codec_too_long field (length c)) else rest

unfoldable pub check_codecs : Text → List Text → Validation
check_codecs field codecs =
    if ltb max_codecs (length codecs)
    then err (too_many_codecs field (length codecs))
    else check_codec_lengths field codecs

-- `if let Some(mid) = sdp_mid { check_len(…)?; }`
unfoldable pub check_mid : Option Text → Validation
check_mid none = ok tt
check_mid (some mid) = check_len (codes "sdp_mid") (utf8_len mid) max_name_chars

unfoldable pub validate : SignalingMessage → Validation
validate (session_request sender_id display_name protocol_version capabilities) = do
  check_name (codes "sender_id") sender_id
  check_name (codes "display_name") display_name
  check_codecs (codes "video_codecs") capabilities.video_codecs
  check_codecs (codes "audio_codecs") capabilities.audio_codecs
validate (session_accept receiver_id negotiated) = check_name (codes "receiver_id") receiver_id
validate (sdp_offer sdp) = check_len (codes "sdp") (utf8_len sdp) max_sdp_bytes
validate (sdp_answer sdp) = check_len (codes "sdp") (utf8_len sdp) max_sdp_bytes
validate (ice_candidate candidate sdp_mid sdp_mline_index) = do
  check_len (codes "candidate") (utf8_len candidate) max_candidate_bytes
  check_mid sdp_mid
validate (pairing_challenge receiver_pub_ecdh) =
    check_len (codes "receiver_pub_ecdh") (utf8_len receiver_pub_ecdh) max_proof_bytes
validate (pairing_response sender_pub_ecdh pin_proof) = do
  check_len (codes "sender_pub_ecdh") (utf8_len sender_pub_ecdh) max_proof_bytes
  check_len (codes "pin_proof") (utf8_len pin_proof) max_proof_bytes
validate (pairing_confirm confirm receiver_cert_fingerprint) = do
  check_len (codes "confirm") (utf8_len confirm) max_proof_bytes
  check_len (codes "receiver_cert_fingerprint") (utf8_len receiver_cert_fingerprint) max_proof_bytes
validate (auth_challenge nonce) = check_len (codes "nonce") (utf8_len nonce) max_proof_bytes
validate (auth_response nonce proof) = do
  check_len (codes "nonce") (utf8_len nonce) max_proof_bytes
  check_len (codes "proof") (utf8_len proof) max_proof_bytes
validate (auth_confirm proof) = check_len (codes "proof") (utf8_len proof) max_proof_bytes
validate ice_complete = ok tt
validate (session_reject reason) = ok tt
validate (bitrate_hint target_kbps reason) = ok tt
validate (ping timestamp_ms) = ok tt
validate (pong timestamp_ms receiver_timestamp_ms) = ok tt
validate (session_end reason) = ok tt
