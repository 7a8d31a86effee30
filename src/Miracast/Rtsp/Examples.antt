-- ===== src/Miracast/Rtsp/Examples.antt =====
-- Runs of the control connection, and its theorems at concrete inputs.
use openplay.Miracast.Rtsp.Negotiate.Steps.{Heard}
use openplay.Miracast.WfdParams.{WfdVideoFormats}
use openplay.Prelude.{
  none, some, ok, err, refl, [], codes, ◌≡◌, text_eq, ◌∷◌, List, Text, ℕ, ◌++◌, ap,
}
use openplay.Miracast.Rtsp.Connection.{
  Arrival, chunk, silence, new, RtspConnection, read_message, read_message_within, front, send,
  continue_on, rtsp_timeout,
}
use openplay.Prelude.Search.{find_subslice}
use openplay.Miracast.Rtsp.Message.{
  framed_message_len, header_number, is_header, parse_request, parse_response, split_header_body,
  parse_transport_port, transport_port, port_of_parts, parse_sink_video_formats, line_value,
}
use openplay.Miracast.Rtsp.Negotiate.{negotiate, require, usable_port}
use openplay.Miracast.Rtsp.Negotiate.Transcript.{negotiate-IsTranscript, IsTranscript}
use openplay.Miracast.Rtsp.Serve.{
  serve_control_channel_every, serve_round, ended, goes_on, keepalive_interval,
}
use openplay.Miracast.Rtsp.Serve.Keepalive.{serve_control_channel-silent, pinged}
use openplay.Miracast.Rtsp.Serve.Endless.{serve_control_channel-endless, acknowledged_times}
use openplay.Miracast.Rtsp.Framing.{Says, read_message-stream, stream}
use openplay.Miracast.WfdParams.{default_formats, negotiate_resolution, best_mode, supports}
use openplay.Prelude.Strings.{
  lower, trim, split_by, push_front, drop_empty, close_lines, strip_prefix, is_some, is_whitespace,
  find, nth, from_str_radix, digits_value, to_digit,
}
use openplay.Prelude.Utf8.{lossy_from}

abbrev wire : List Text → List ℕ
wire [] = 13 ∷ 10 ∷ []
wire (l ∷ ls) = l ++ (13 ∷ 10 ∷ wire ls)

abbrev ok_reply : List ℕ
ok_reply = wire (codes "RTSP/1.0 200 OK" ∷ codes "CSeq: 1" ∷ [])

-- A sink that answers well; it splits SETUP in two and sends PLAY in the same piece.
abbrev sink_script : List Arrival
sink_script =
    chunk (ok_reply ++ wire (codes "OPTIONS * RTSP/1.0" ∷ codes "CSeq: 7" ∷ []))
    ∷ chunk ok_reply
    ∷ chunk ok_reply
    ∷ chunk ok_reply
    ∷ chunk (codes "SETUP rtsp://a RTSP/1.0" ++ (13 ∷ []))
    ∷ chunk (
        10
          ∷ wire (
              codes "CSeq: 8" ∷ codes "Transport: RTP/AVP/UDP;unicast;client_port=19000-19001" ∷ [])
        ++ wire (codes "PLAY rtsp://a RTSP/1.0" ∷ codes "CSeq: 9" ∷ []))
    ∷ []

abbrev connection : RtspConnection
connection = new sink_script []

negotiate-sample :
    (negotiate (codes "10.0.0.2") default_formats connection).1
    ≡ ok (record {
      width = 1920;
      height = 1080;
      fps = 30;
      rtp_port = 19000;
      sink_addr = codes "10.0.0.2";
    })
unfolding negotiate require usable_port continue_on send read_message_within read_message front
    framed_message_len find_subslice header_number is_header parse_request parse_response
    split_header_body parse_transport_port transport_port port_of_parts parse_sink_video_formats
    line_value negotiate_resolution best_mode supports lower trim split_by push_front drop_empty
    close_lines strip_prefix is_some is_whitespace find nth from_str_radix digits_value to_digit
    lossy_from text_eq
negotiate-sample = refl

negotiate-IsTranscript_example :
    let c' = (negotiate (codes "10.0.0.2") default_formats connection).0 in
    (heard : List Text) × (sent : List Text) × Heard [] sink_script heard c'.buf c'.arrivals
    × (c'.sent ≡ sent)
    × IsTranscript default_formats 0 heard sent (record {
      width = 1920;
      height = 1080;
      fps = 30;
      rtp_port = 19000;
      sink_addr = codes "10.0.0.2";
    })
negotiate-IsTranscript_example =
    negotiate-IsTranscript (codes "10.0.0.2") default_formats connection
      (ap (λ r. ((negotiate (codes "10.0.0.2") default_formats connection).0, r)) negotiate-sample)

read_message-stream_example :
    Says
      (codes "GET" ++ stream (chunk ok_reply ∷ []))
      (read_message (codes "GET") (chunk ok_reply ∷ []))
read_message-stream_example = read_message-stream (codes "GET") (chunk ok_reply ∷ [])

abbrev idle : RtspConnection
idle = new (silence ∷ silence ∷ []) []

idle-waits : front [] ≡ none
unfolding front framed_message_len find_subslice
idle-waits = refl

serve_control_channel-silent_example :
    let last = pinged (pinged (pinged idle)) in
    serve_control_channel_every 4 keepalive_interval 0 idle
    ≡ (record last { arrivals = [] }, ended (err (rtsp_timeout 40000)))
serve_control_channel-silent_example =
    serve_control_channel-silent 0 keepalive_interval idle
      (record { waits = idle-waits; quiet = (refl, (refl, tt)); writable = refl })

serve_round-idle : (serve_round keepalive_interval 2 idle).1 ≡ goes_on 3
unfolding serve_round read_message front framed_message_len find_subslice continue_on send
serve_round-idle = refl

-- 42 bytes of headers, 4 of their end, and 2 ^ 64 - 46 of a body.
abbrev endless_message : List ℕ
endless_message = wire (codes "PING" ∷ codes "Content-Length: 18446744073709551570" ∷ [])

abbrev flooded : RtspConnection
flooded = record idle { buf = endless_message }

endless-len : framed_message_len endless_message ≡ some 0
unfolding framed_message_len find_subslice header_number is_header lower trim split_by push_front
    close_lines strip_prefix is_some find nth from_str_radix digits_value to_digit lossy_from
    is_whitespace
endless-len = refl

serve_control_channel-endless_example :
    serve_control_channel_every 1000000 keepalive_interval 0 flooded
    ≡ (acknowledged_times 1000000 flooded, goes_on 0)
serve_control_channel-endless_example =
    serve_control_channel-endless 999999 keepalive_interval 0 flooded endless-len refl

-- Both sides support 720x480 and nothing else.
abbrev small_formats : WfdVideoFormats
small_formats = record default_formats { cea_resolutions = 2 }

abbrev small_answer : List ℕ
small_answer =
    wire (codes "RTSP/1.0 200 OK" ∷ codes "CSeq: 2" ∷ codes "Content-Length: 78" ∷ [])
    ++ codes "wfd_video_formats: 00 00 01 10 00000002 00000000 00000000 00 0000 0000 11 none"

abbrev small_connection : RtspConnection
small_connection =
    new
      (chunk (ok_reply ++ wire (codes "OPTIONS * RTSP/1.0" ∷ codes "CSeq: 7" ∷ []))
        ∷ chunk small_answer
        ∷ chunk ok_reply
        ∷ chunk ok_reply
        ∷ chunk (
            wire (
              codes "SETUP rtsp://a RTSP/1.0"
              ∷ codes "CSeq: 8"
              ∷ codes "Transport: RTP/AVP/UDP;unicast;client_port=19000-19001"
              ∷ []))
        ∷ chunk (wire (codes "PLAY rtsp://a RTSP/1.0" ∷ codes "CSeq: 9" ∷ []))
        ∷ [])
      []
