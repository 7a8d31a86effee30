-- ===== src/Miracast/Rtsp/Serve/Endless.antt =====
-- A message whose length wraps around to nothing.
use openplay.Prelude.{ok, false}
use openplay.Prelude.{zero, suc, some, refl, [], ◌++◌, ℕ, ◌∷◌, ◌≡◌, arith, ◌∙◌, text_eq}
use openplay.Miracast.Rtsp.Connection.{RtspConnection, send, continue_on}
use openplay.Miracast.Rtsp.Framing.{front-message, read_message-front}
use openplay.Prelude.Search.{find_subslice}
use openplay.Miracast.Rtsp.Message.{
  framed_message_len, parse_request, split_header_body, header_number,
}
use openplay.Prelude.Strings.{split_by, close_lines, drop_empty, find, nth, is_some, strip_prefix}
use openplay.Prelude.Utf8.{lossy_from}
use openplay.Miracast.Rtsp.Serve.Keepalive.{serve_control_channel-goes_on}
use openplay.Miracast.Rtsp.Negotiate.{ok_msg}
use openplay.Miracast.Rtsp.Serve.{
  serve_round, serve_control_channel_every, goes_on, handle_control_message,
}

-- The connection with one more acknowledgement sent.
abbrev pub acknowledged : RtspConnection → RtspConnection
acknowledged c = record c { sent = c.sent ++ (ok_msg 0 ∷ []) }

parse_request-empty :
    parse_request [] ≡ record { method = []; uri = []; headers = []; body = []; cseq = 0 }
unfolding parse_request split_header_body header_number find_subslice split_by close_lines
    drop_empty find nth
parse_request-empty = refl

handle_control_message-empty :
    (c : RtspConnection) → c.writes ≡ [] → handle_control_message [] c ≡ (acknowledged c, ok false)
unfolding handle_control_message send continue_on is_some strip_prefix text_eq
handle_control_message-empty c w = rw parse_request-empty (ground (arith, w))

serve_round-empty :
    (p u : ℕ) (c : RtspConnection)
    → framed_message_len c.buf ≡ some 0
    → c.writes ≡ []
    → serve_round p u c ≡ (acknowledged c, goes_on 0)
unfolding serve_round lossy_from
serve_round-empty p u c h w = ground (
  arith,
  read_message-front c.buf c.arrivals (front-message c.buf h),
  handle_control_message-empty c w,
)

abbrev pub acknowledged_times : ℕ → RtspConnection → RtspConnection
acknowledged_times zero c = c
acknowledged_times (suc n) c = acknowledged_times n (acknowledged c)

-- If the length of the message in front of the buffer wraps around to 0 and the script of the writes
-- is over, so that each of them succeeds, the connection is served
-- without end and without reading on: after any number of rounds it still goes on, the buffer is
-- as it was, and every round has sent one acknowledgement.
pub serve_control_channel-endless :
    (n p u : ℕ) (c : RtspConnection)
    → framed_message_len c.buf ≡ some 0
    → c.writes ≡ []
    → serve_control_channel_every (suc n) p u c ≡ (acknowledged_times (suc n) c, goes_on 0)
serve_control_channel-endless zero p u c h w =
    serve_control_channel-goes_on 0 p u c (serve_round-empty p u c h w)
    ∙ unfold serve_control_channel_every in refl
serve_control_channel-endless (suc n) p u c h w =
    serve_control_channel-goes_on (suc n) p u c (serve_round-empty p u c h w)
    ∙ serve_control_channel-endless n p 0 (acknowledged c) h w
