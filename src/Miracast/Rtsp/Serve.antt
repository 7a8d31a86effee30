-- ===== src/Miracast/Rtsp/Serve.antt =====
-- crates/openplay-miracast/src/rtsp_server.rs: the control connection while the cast lasts.
pub mod Keepalive
pub mod Endless
use openplay.Miracast.Rtsp.Connection.{◌>>=◌, ◌>>◌, pure, message, broken, timed_out}
use openplay.Miracast.Rtsp.Negotiate.{keepalive_msg, ok_msg, options_response_msg}
use openplay.Miracast.Rtsp.Message.{parse_request}
use openplay.Prelude.Strings.{starts_with}
use openplay.Miracast.Rtsp.Connection.{
  RtspConnection, read_message, MiracastError, message, Rtsp, broken, pure, rtsp_timeout, next_cseq,
  ◌>>=◌, send, ◌>>◌,
}
use openplay.Prelude.{
  zero, suc, ok, err, true, false, if◌then◌else◌, Text, ℕ, Result, Bool, ◌/◌, ◌*◌, codes, ltb, ◌+◌,
  text_eq,
}

abbrev pub max_unanswered_keepalives : ℕ
max_unanswered_keepalives = 3

-- `true` when the message ended the session.
unfoldable pub handle_control_message : Text → Rtsp Bool
handle_control_message raw =
    if starts_with (codes "RTSP/") raw
    then pure false
    else let req = parse_request raw in
      if text_eq req.method (codes "TEARDOWN")
      then send (ok_msg req.cseq) (codes "TEARDOWN response") >> pure true
      else if text_eq req.method (codes "OPTIONS")
      then send (options_response_msg req.cseq) (codes "OPTIONS response") >> pure false
      else send (ok_msg req.cseq) (codes "control response") >> pure false

-- How the loop goes on after a round: it ends with a result, or it has so many pings unanswered.
pub data Round : Type 0 where
  ended : Result (Unit {0}) MiracastError → Round
  goes_on : (unanswered : ℕ) → Round

abbrev after_message : RtspConnection × Result Bool MiracastError → RtspConnection × Round
after_message (c, ok true) = (c, ended (ok tt))
after_message (c, ok false) = (c, goes_on 0)
after_message (c, err e) = (c, ended (err e))

abbrev after_ping : ℕ → RtspConnection × Result (Unit {0}) MiracastError → RtspConnection × Round
after_ping unanswered (c, ok _) = (c, goes_on unanswered)
after_ping unanswered (c, err e) = (c, ended (err e))

-- One round of the loop, with a ping period in milliseconds.
unfoldable pub serve_round : (ping_every unanswered : ℕ) → RtspConnection → RtspConnection × Round
serve_round ping_every unanswered c =
    let (buf', arrivals', r) = read_message c.buf c.arrivals in
    let c' = record c { buf = buf'; arrivals = arrivals' } in
    elim r [
      | message raw ↦ after_message (handle_control_message raw c')
      | broken e ↦ (c', ended (err e))
      | timed_out ↦
          if ltb max_unanswered_keepalives (unanswered + 1)
          then (c', ended (err (rtsp_timeout (ping_every * (unanswered + 1)))))
          else after_ping (unanswered + 1)
              ((next_cseq >>= λ cseq. send (keepalive_msg cseq) (codes "keep-alive")) c')
    ]

-- The first rounds of the loop, as long as it does not end.
unfoldable pub serve_control_channel_every :
    (rounds ping_every unanswered : ℕ) → RtspConnection → RtspConnection × Round
serve_control_channel_every zero ping_every unanswered c = (c, goes_on unanswered)
serve_control_channel_every (suc rounds) ping_every unanswered c =
    let (c', r) = serve_round ping_every unanswered c in
    elim r [
      | ended result ↦ (c', ended result)
      | goes_on n ↦ serve_control_channel_every rounds ping_every n c'
    ]

abbrev pub keepalive_interval : ℕ
keepalive_interval = 30 / 3 * 1000
