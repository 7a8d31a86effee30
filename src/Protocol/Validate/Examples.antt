-- ===== src/Protocol/Validate/Examples.antt =====
-- Runs of `validate`, and its theorems at concrete messages.
use openplay.Protocol.Validate.Bounds.{
  IsName, validate-unbounded, AreCodecs, validate-session_request_iff, validate-bounds,
}
use openplay.Protocol.Message.{SignalingMessage, session_request, default_capabilities}
use openplay.Protocol.Validate.{
  check_name, validate, max_sdp_bytes, check_codecs, check_codec_lengths, control_chars,
}
use openplay.Protocol.Message.Size.{message_len, unchecked_len}
use openplay.Prelude.{[], codes, err, ok, refl, ◌+◌, ◌<◌, ◌↔◌, ◌∷◌, ◌≡◌, ◌≤◌, is_control}

abbrev ann : SignalingMessage
ann = session_request (codes "id") (codes "ann") 1 default_capabilities

ann-validate : validate ann ≡ ok tt
unfolding validate check_name check_codecs check_codec_lengths is_control
ann-validate = refl

newline_in_name :
    check_name (codes "sender_id") (codes "a\nb") ≡ err (control_chars (codes "sender_id"))
unfolding check_name is_control
newline_in_name = refl

validate-bounds_sample : message_len ann ≤ max_sdp_bytes + unchecked_len ann
validate-bounds_sample = validate-bounds ann ann-validate

validate-unbounded_example :
    (m : SignalingMessage) × (validate m ≡ ok tt) × (1_000_000 < message_len m)
validate-unbounded_example = validate-unbounded 1_000_000

validate-session_request_iff_sample : (validate ann ≡ ok tt) ↔ (
    IsName (codes "id")
    × IsName (codes "ann")
    × AreCodecs (codes "h264" ∷ [])
    × AreCodecs (codes "opus" ∷ []))
validate-session_request_iff_sample =
    validate-session_request_iff (codes "id") (codes "ann") 1 default_capabilities
