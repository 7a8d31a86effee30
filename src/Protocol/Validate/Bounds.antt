-- ===== src/Protocol/Validate/Bounds.antt =====
-- What a validated message may carry.
use openplay.Prelude.{
  ℕ, zero, suc, All, replicate, ◌+◌, ◌*◌, ◌≤◌, ◌<◌, ◌≡◌, refl, ◌≢◌, ◌↔◌, List, [], ◌∷◌, Option,
  none, some, false, Text, codes, arith, utf8_len, utf8_len-le, is_control, length, any, ok,
}
use openplay.Protocol.Message.{
  Capabilities, SignalingMessage, session_request, session_accept, ice_candidate,
}
use openplay.Protocol.Message.Size.{texts_len, option_len, message_len, unchecked_len}
use openplay.Protocol.Validate.{
  max_name_chars, max_sdp_bytes, max_codecs, max_codec_chars, check_name, check_len,
  check_codec_lengths, check_codecs, check_mid, validate,
}

-- A name that may be shown and logged.
pub record IsName (t : Text) : Type 0 where
  pub nonempty : t ≢ []
  pub short : length t ≤ max_name_chars
  pub printable : any is_control t ≡ false

pub check_name-IsName : (f t : Text) → check_name f t ≡ ok tt → IsName t
unfolding check_name
check_name-IsName f [] h = cc
check_name-IsName f (c ∷ t) h = record {
  nonempty = λ e. cc;
  short = ground arith;
  printable = ground arith;
}

check_name-len : (f t : Text) → check_name f t ≡ ok tt → utf8_len t ≤ 4 * max_name_chars
check_name-len f t h = omega (arith, utf8_len-le t, check_name-IsName f t h)

check_len-le : (f : Text) (len max : ℕ) → check_len f len max ≡ ok tt → len ≤ max
unfolding check_len
check_len-le f len max h = ground arith

check_mid-len : (m : Option Text) → check_mid m ≡ ok tt → option_len m ≤ max_name_chars
unfolding check_mid option_len
check_mid-len none h = omega arith
check_mid-len (some t) h = check_len-le _ _ _ h

check_codec_lengths-len :
    (f : Text) (cs : List Text)
    → check_codec_lengths f cs ≡ ok tt
    → texts_len cs ≤ 4 * max_codec_chars * length cs
unfolding check_codec_lengths texts_len
check_codec_lengths-len f [] h = omega arith
check_codec_lengths-len f (c ∷ cs) h = ground (arith, utf8_len-le c, check_codec_lengths-len f cs)

check_codecs-len :
    (f : Text) (cs : List Text)
    → check_codecs f cs ≡ ok tt
    → texts_len cs ≤ 4 * max_codec_chars * max_codecs
unfolding check_codecs
check_codecs-len f cs h = ground (arith, check_codec_lengths-len f cs)

-- A message that passes `validate` carries at most 16 KiB of text, beyond the strings of the
-- negotiated parameters of a session_accept, which are not checked.
pub validate-bounds :
    (m : SignalingMessage) → validate m ≡ ok tt → message_len m ≤ max_sdp_bytes + unchecked_len m
unfolding validate message_len unchecked_len
validate-bounds (session_request s d v c) h = ground (
  arith,
  check_name-len (codes "sender_id") s,
  check_name-len (codes "display_name") d,
  check_codecs-len (codes "video_codecs") c.video_codecs,
  check_codecs-len (codes "audio_codecs") c.audio_codecs,
)
validate-bounds (session_accept r n) h = ground (arith, check_name-len (codes "receiver_id") r)
validate-bounds (ice_candidate c m i) h =
    ground (arith, check_len-le (codes "candidate") (utf8_len c) 1024, check_mid-len m)
validate-bounds _ h = unfold check_len in ground arith

IsName-check_name : (f t : Text) → IsName t → check_name f t ≡ ok tt
unfolding check_name
IsName-check_name f [] h = absurd (h.nonempty refl)
IsName-check_name f (c ∷ t) h = ground arith

utf8_len-replicate : (n : ℕ) → utf8_len (replicate n b'h') ≡ n
unfolding utf8_len
utf8_len-replicate zero = refl
utf8_len-replicate (suc n) = omega (arith, utf8_len-replicate n)

accept_with_codec : Text → SignalingMessage
accept_with_codec v =
    session_accept (codes "r")
      (record { video_codec = v; audio_codec = none; max_bitrate_kbps = 6000; framerate = 30 })

-- The negotiated strings have no bound: for every limit some message passes `validate` and
-- carries more text than the limit.
pub validate-unbounded :
    (limit : ℕ) → (m : SignalingMessage) × (validate m ≡ ok tt) × (limit < message_len m)
unfolding validate check_name is_control accept_with_codec message_len utf8_len
validate-unbounded limit =
    (accept_with_codec (replicate limit b'h'), refl, omega (arith, utf8_len-replicate limit))

-- At most sixteen codecs of at most 32 characters each.
abbrev pub AreCodecs : List Text → Type 0
AreCodecs cs = (length cs ≤ max_codecs) × All (λ c. length c ≤ max_codec_chars) cs

check_codec_lengths_iff :
    (f : Text) (cs : List Text)
    → (check_codec_lengths f cs ≡ ok tt) ↔ All (λ c. length c ≤ max_codec_chars) cs
unfolding check_codec_lengths
check_codec_lengths_iff f [] = (λ _. tt, λ _. refl)
check_codec_lengths_iff f (c ∷ cs) = ground (arith, check_codec_lengths_iff f cs)

check_codecs_iff : (f : Text) (cs : List Text) → (check_codecs f cs ≡ ok tt) ↔ AreCodecs cs
unfolding check_codecs
check_codecs_iff f cs = ground (arith, check_codec_lengths_iff f cs)

pub check_name_iff : (f t : Text) → (check_name f t ≡ ok tt) ↔ IsName t
check_name_iff f t = (check_name-IsName f t, IsName-check_name f t)

-- A session_request passes exactly when the sender id and the display name are names (not
-- empty, at most 64 characters, no control character) and each of its codec lists holds at most
-- sixteen entries of at most 32 characters.
pub validate-session_request_iff :
    (s d : Text) (v : ℕ) (c : Capabilities)
    → (validate (session_request s d v c) ≡ ok tt)
      ↔ (IsName s × IsName d × AreCodecs c.video_codecs × AreCodecs c.audio_codecs)
unfolding validate
validate-session_request_iff s d v c = ground (
  arith,
  check_name_iff (codes "sender_id") s,
  check_name_iff (codes "display_name") d,
  check_codecs_iff (codes "video_codecs") c.video_codecs,
  check_codecs_iff (codes "audio_codecs") c.audio_codecs,
)
