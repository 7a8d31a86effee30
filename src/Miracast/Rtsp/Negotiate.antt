-- ===== src/Miracast/Rtsp/Negotiate.antt =====
-- crates/openplay-miracast/src/rtsp_server.rs: the messages that the source sends, and the
-- negotiation M1 to M7.
pub mod Steps
pub mod Transcript
pub mod Unshared
use openplay.Miracast.Rtsp.Connection.{◌>>=◌, ◌>>◌, pure}
use openplay.Prelude.Strings.{decimal, or_else}
use openplay.Miracast.Rtsp.Connection.{
  Rtsp, rtsp, next_cseq, send, read_response, rtsp_read_timeout, read_request,
}
use openplay.Miracast.Rtsp.Message.{
  RtspRequest, RtspResponse, parse_transport_port, parse_sink_video_formats,
}
use openplay.Miracast.WfdParams.{
  Mode, WfdVideoFormats, CeaResolutions, encode, default_formats, res_1920x1080_p60,
  res_1920x1080_p30, res_1280x720_p60, res_1280x720_p30, negotiate_resolution,
}
use openplay.Prelude.{
  none, some, ok, err, true, false, [], if◌then◌else◌, List, Text, Option, ℕ, Bool, ◌∷◌, codes,
  ◌++◌, ◌==◌, text_eq, ◌&&◌, utf8_len,
}

abbrev crlf : Text
crlf = 13 ∷ 10 ∷ []

-- Lines, each with its end.
unfoldable pub join_lines : List Text → Text
join_lines [] = []
join_lines (l ∷ ls) = l ++ (crlf ++ join_lines ls)

abbrev session_id : Text
session_id = codes "1"

abbrev ok_line : Text
ok_line = codes "RTSP/1.0 200 OK"

abbrev cseq_line : ℕ → Text
cseq_line cseq = codes "CSeq: " ++ decimal cseq

unfoldable pub options_msg : ℕ → Text
unfolding join_lines
options_msg cseq =
    join_lines
      (codes "OPTIONS * RTSP/1.0" ∷ cseq_line cseq ∷ codes "Require: org.wfa.wfd1.0" ∷ [] ∷ [])

unfoldable pub options_response_msg : ℕ → Text
unfolding join_lines
options_response_msg cseq = join_lines (
    ok_line
    ∷ cseq_line cseq
    ∷ codes "Public: org.wfa.wfd1.0, GET_PARAMETER, SET_PARAMETER"
    ∷ []
    ∷ [])

-- A request with a body of parameters.
unfoldable pub parameter_msg : Text → ℕ → Text → Text
unfolding join_lines
parameter_msg method cseq body =
    join_lines (
      (method ++ codes " rtsp://localhost/wfd1.0 RTSP/1.0")
      ∷ cseq_line cseq
      ∷ codes "Content-Type: text/parameters"
      ∷ (codes "Content-Length: " ++ decimal (utf8_len body))
      ∷ []
      ∷ [])
    ++ body

unfoldable pub get_parameter_msg : ℕ → Text
unfolding parameter_msg join_lines
get_parameter_msg cseq = parameter_msg (codes "GET_PARAMETER") cseq (
    join_lines
      (codes "wfd_video_formats" ∷ codes "wfd_audio_codecs" ∷ codes "wfd_client_rtp_ports" ∷ []))

unfoldable pub set_parameter_msg : ℕ → WfdVideoFormats → Text
unfolding parameter_msg join_lines
set_parameter_msg cseq video_formats = parameter_msg (codes "SET_PARAMETER") cseq (
    join_lines (
      (codes "wfd_video_formats: " ++ encode video_formats)
      ∷ codes "wfd_client_rtp_ports: RTP/AVP/UDP;unicast 1028 0 mode=play"
      ∷ []))

unfoldable pub trigger_setup_msg : ℕ → Text
unfolding parameter_msg join_lines
trigger_setup_msg cseq =
    parameter_msg (codes "SET_PARAMETER") cseq (join_lines (codes "wfd_trigger_method: SETUP" ∷ []))

unfoldable pub setup_response_msg : ℕ → ℕ → Text
unfolding join_lines
setup_response_msg cseq rtp_port = join_lines (
    ok_line
    ∷ cseq_line cseq
    ∷ (codes "Session: " ++ (session_id ++ codes ";timeout=30"))
    ∷ (codes "Transport: RTP/AVP/UDP;unicast;client_port="
        ++ (decimal rtp_port ++ (codes ";server_port=" ++ decimal rtp_port)))
    ∷ []
    ∷ [])

-- `send_play_response` and `send_ok` send the same message.
unfoldable pub ok_msg : ℕ → Text
unfolding join_lines
ok_msg cseq = join_lines (ok_line ∷ cseq_line cseq ∷ (codes "Session: " ++ session_id) ∷ [] ∷ [])

unfoldable pub keepalive_msg : ℕ → Text
unfolding join_lines
keepalive_msg cseq = join_lines (
    codes "GET_PARAMETER rtsp://localhost/wfd1.0 RTSP/1.0"
    ∷ cseq_line cseq
    ∷ (codes "Session: " ++ session_id)
    ∷ []
    ∷ [])

pub record WfdNegotiationResult : Type 0 where
  pub width : ℕ
  pub height : ℕ
  pub fps : ℕ
  pub rtp_port : ℕ
  pub sink_addr : Text

abbrev fails {ℓ} : {A : Type ℓ} → Text → Rtsp A
fails reason c = (c, err (rtsp reason))

-- `if !b { return Err(..) }`.
unfoldable pub require : Bool → Text → Rtsp (Unit {0})
require b reason c = if b then (c, ok tt) else (c, err (rtsp reason))

abbrev pub accepted : RtspResponse → Text → Rtsp (Unit {0})
accepted r what = require (r.code == 200) (what ++ (codes " rejected: " ++ r.status))

abbrev pub expected : RtspRequest → Text → Text → Rtsp (Unit {0})
expected r what method =
    require (text_eq r.method method)
      (codes "Expected " ++ (what ++ (codes " " ++ (method ++ (codes ", got " ++ r.method)))))

-- The bit that M4 asks for.
unfoldable pub mode_bit : Mode → CeaResolutions
mode_bit (width, height, fps) =
    if width == 1920 && height == 1080
    then if fps == 60 then res_1920x1080_p60 else res_1920x1080_p30
    else if width == 1280 && height == 720 && fps == 60
    then res_1280x720_p60
    else res_1280x720_p30

abbrev formats_or_default : Option WfdVideoFormats → WfdVideoFormats
formats_or_default f = or_else f default_formats

unfoldable pub replace_crlf : Text → Text
replace_crlf [] = []
replace_crlf (c ∷ []) = c ∷ []
replace_crlf (c ∷ d ∷ t) = elim (c == 13 && d == 10) [
  | true ↦ codes " | " ++ replace_crlf t
  | false ↦ c ∷ replace_crlf (d ∷ t)
]

-- `ok_or_else` on the port.
unfoldable pub usable_port : Text → Rtsp ℕ
unfolding replace_crlf
usable_port headers c = elim (parse_transport_port headers) [
  | some port ↦ (c, ok port)
  | none ↦ (
    c,
    err (
        rtsp (
          codes "M6 SETUP carries no usable client_port, nowhere to send RTP: "
          ++ replace_crlf headers)),
  )
]

unfoldable pub negotiate : Text → WfdVideoFormats → Rtsp WfdNegotiationResult
negotiate sink_addr source_formats = do
  cseq1 ← next_cseq
  send (options_msg cseq1) (codes "M1")
  m1_resp ← read_response rtsp_read_timeout
  accepted m1_resp (codes "M1 OPTIONS")
  m2_req ← read_request rtsp_read_timeout
  expected m2_req (codes "M2") (codes "OPTIONS")
  send (options_response_msg m2_req.cseq) (codes "OPTIONS response")
  cseq3 ← next_cseq
  send (get_parameter_msg cseq3) (codes "M3")
  m3_resp ← read_response rtsp_read_timeout
  accepted m3_resp (codes "M3 GET_PARAMETER")
  mode ← pure (
      negotiate_resolution source_formats
        (formats_or_default (parse_sink_video_formats m3_resp.body)))
  cseq4 ← next_cseq
  send (set_parameter_msg cseq4 (record source_formats { cea_resolutions = mode_bit mode }))
      (codes "M4")
  m4_resp ← read_response rtsp_read_timeout
  accepted m4_resp (codes "M4 SET_PARAMETER")
  cseq5 ← next_cseq
  send (trigger_setup_msg cseq5) (codes "M5")
  m5_resp ← read_response rtsp_read_timeout
  accepted m5_resp (codes "M5 trigger")
  m6_req ← read_request rtsp_read_timeout
  expected m6_req (codes "M6") (codes "SETUP")
  rtp_port ← usable_port m6_req.headers
  send (setup_response_msg m6_req.cseq rtp_port) (codes "M6 response")
  m7_req ← read_request rtsp_read_timeout
  expected m7_req (codes "M7") (codes "PLAY")
  send (ok_msg m7_req.cseq) (codes "M7 response")
  pure (record {
    width = mode.0;
    height = mode.1;
    fps = mode.2;
    rtp_port = rtp_port;
    sink_addr = sink_addr;
  })
