-- ===== src/Protocol/Message/Size.antt =====
-- How much text a signaling message carries, in UTF-8 bytes.
use openplay.Prelude.{ℕ, ◌+◌, List, [], ◌∷◌, Option, none, some, Text, utf8_len}
use openplay.Protocol.Message.{
  NegotiatedParams, SignalingMessage, session_request, session_accept, session_reject,
  pairing_challenge, pairing_response, pairing_confirm, auth_challenge, auth_response, auth_confirm,
  sdp_offer, sdp_answer, ice_candidate, ice_complete, bitrate_hint, ping, pong, session_end,
}

unfoldable pub texts_len : List Text → ℕ
texts_len [] = 0
texts_len (t ∷ ts) = utf8_len t + texts_len ts

unfoldable pub option_len : Option Text → ℕ
option_len none = 0
option_len (some t) = utf8_len t

-- The strings of `NegotiatedParams`.
unfoldable pub negotiated_len : NegotiatedParams → ℕ
unfolding option_len
negotiated_len n = utf8_len n.video_codec + option_len n.audio_codec

-- Every `String` field of the message.
unfoldable pub message_len : SignalingMessage → ℕ
unfolding texts_len option_len negotiated_len
message_len (session_request s d v c) =
    utf8_len s + utf8_len d + texts_len c.video_codecs + texts_len c.audio_codecs
message_len (session_accept r n) = utf8_len r + negotiated_len n
message_len (session_reject r) = 0
message_len (pairing_challenge k) = utf8_len k
message_len (pairing_response k p) = utf8_len k + utf8_len p
message_len (pairing_confirm c f) = utf8_len c + utf8_len f
message_len (auth_challenge n) = utf8_len n
message_len (auth_response n p) = utf8_len n + utf8_len p
message_len (auth_confirm p) = utf8_len p
message_len (sdp_offer s) = utf8_len s
message_len (sdp_answer s) = utf8_len s
message_len (ice_candidate c m i) = utf8_len c + option_len m
message_len ice_complete = 0
message_len (bitrate_hint t r) = 0
message_len (ping t) = 0
message_len (pong t r) = 0
message_len (session_end r) = 0

-- What `validate` does not look at: the strings of the negotiated parameters.
unfoldable pub unchecked_len : SignalingMessage → ℕ
unfolding negotiated_len
unchecked_len (session_accept r n) = negotiated_len n
unchecked_len _ = 0
