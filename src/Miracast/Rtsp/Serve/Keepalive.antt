-- ===== src/Miracast/Rtsp/Serve/Keepalive.antt =====
-- The pings of the control connection, and when it gives up.
use openplay.Prelude.{suc}
use openplay.Prelude.{
  none, err, refl, [], ◌≡◌, List, ◌+◌, ℕ, drop, ◌%◌, ◌≤◌, All, ◌<◌, ◌*◌, ◌∷◌, ◌^◌, arith, ◌∙◌, ◌++◌,
  ap, Result,
}
use openplay.Miracast.Rtsp.Connection.{
  Arrival, silence, front, read_message, timed_out, RtspConnection, send, continue_on, rtsp_timeout,
  MiracastError,
}
use openplay.Miracast.Rtsp.Framing.{read_message-on, read_message-end, read_message_on}
use openplay.Miracast.Rtsp.Negotiate.{keepalive_msg}
use openplay.Miracast.Rtsp.Serve.{
  serve_round, serve_control_channel_every, ended, goes_on, max_unanswered_keepalives,
}

-- The sink stays silent from now on, with no whole message in the buffer, and every write succeeds.
pub record IsSilent (c : RtspConnection) : Type 0 where
  pub waits : front c.buf ≡ none
  pub quiet : All (λ a. a ≡ silence) c.arrivals
  pub writable : c.writes ≡ []

read_message-quiet :
    (buf : List ℕ) (arrivals : List Arrival)
    → front buf ≡ none
    → All (λ a. a ≡ silence) arrivals
    → read_message buf arrivals ≡ (buf, drop 1 arrivals, timed_out)
read_message-quiet buf [] h q = read_message-end buf h
read_message-quiet buf (a ∷ rest) h q =
    read_message-on buf a rest h
    ∙ ap (λ b. read_message_on buf b rest) q.0
    ∙ unfold read_message_on in refl

-- The connection after a ping that met a silence.
abbrev pub pinged : RtspConnection → RtspConnection
pinged c =
    let n = (c.cseq + 1) % 2 ^ 32 in
    record c { cseq = n; arrivals = drop 1 c.arrivals; sent = c.sent ++ (keepalive_msg n ∷ []) }

drop-All :
    (arrivals : List Arrival)
    → All (λ a. a ≡ silence) arrivals
    → All (λ a. a ≡ silence) (drop 1 arrivals)
drop-All [] q = q
drop-All (a ∷ rest) q = q.1

pinged-IsSilent : (c : RtspConnection) → IsSilent c → IsSilent (pinged c)
pinged-IsSilent c s = record {
  waits = s.waits;
  quiet = drop-All c.arrivals s.quiet;
  writable = s.writable;
}

serve_round-ping :
    (p u : ℕ) (c : RtspConnection)
    → IsSilent c
    → u < max_unanswered_keepalives
    → serve_round p u c ≡ (pinged c, goes_on (u + 1))
unfolding serve_round send continue_on
serve_round-ping p u c s h =
    ground (arith, read_message-quiet c.buf c.arrivals s.waits s.quiet, s.writable)

serve_round-gives_up :
    (p : ℕ) (c : RtspConnection)
    → IsSilent c
    → serve_round p max_unanswered_keepalives c
      ≡ (record c { arrivals = drop 1 c.arrivals }, ended (err (rtsp_timeout (p * 4))))
unfolding serve_round
serve_round-gives_up p c s = ground (arith, read_message-quiet c.buf c.arrivals s.waits s.quiet)

pub serve_control_channel-goes_on :
    (rounds p u : ℕ) (c : RtspConnection) {c' : RtspConnection} {n : ℕ}
    → serve_round p u c ≡ (c', goes_on n)
    → serve_control_channel_every (suc rounds) p u c ≡ serve_control_channel_every rounds p n c'
unfolding serve_control_channel_every
serve_control_channel-goes_on rounds p u c h = ground arith

serve_control_channel-ended :
    (rounds p u : ℕ) (c : RtspConnection) {c' : RtspConnection}
    {r : Result (Unit {0}) MiracastError}
    → serve_round p u c ≡ (c', ended r)
    → serve_control_channel_every (suc rounds) p u c ≡ (c', ended r)
unfolding serve_control_channel_every
serve_control_channel-ended rounds p u c h = ground arith

-- If the sink falls silent, the source sends exactly three pings, each with the next number, and
-- in the fourth silent period it gives up: it reports a timeout of four periods.
pub serve_control_channel-silent :
    (more p : ℕ) (c : RtspConnection)
    → IsSilent c
    → let last = pinged (pinged (pinged c)) in
      serve_control_channel_every (suc (suc (suc (suc more)))) p 0 c
      ≡ (record last { arrivals = drop 1 last.arrivals }, ended (err (rtsp_timeout (p * 4))))
serve_control_channel-silent more p c s =
    let s1 = pinged-IsSilent c s in
    let s2 = pinged-IsSilent (pinged c) s1 in
    let s3 = pinged-IsSilent (pinged (pinged c)) s2 in
    serve_control_channel-goes_on (suc (suc (suc more))) p 0 c
      (serve_round-ping p 0 c s (omega arith))
    ∙ (serve_control_channel-goes_on (suc (suc more)) p 1 (pinged c)
          (serve_round-ping p 1 (pinged c) s1 (omega arith))
        ∙ (serve_control_channel-goes_on (suc more) p 2 (pinged (pinged c))
              (serve_round-ping p 2 (pinged (pinged c)) s2 (omega arith))
            ∙ serve_control_channel-ended more p 3 (pinged (pinged (pinged c)))
                (serve_round-gives_up p (pinged (pinged (pinged c))) s3)))

-- While the connection is served, three pings at most are unanswered.
serve_round-bound :
    (p u : ℕ) (c : RtspConnection) {c' : RtspConnection} {n : ℕ}
    → serve_round p u c ≡ (c', goes_on n)
    → n ≤ max_unanswered_keepalives
unfolding serve_round
serve_round-bound p u c h = ground arith
