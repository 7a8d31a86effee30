-- ===== src/Miracast/Session/Lifecycle.antt =====
-- The events of a session (crates/openplay-miracast/src/session.rs).
use openplay.Miracast.Rtsp.Serve.{ended, goes_on}
use openplay.Miracast.Rtsp.Connection.{MiracastError, RtspConnection}
use openplay.Miracast.Rtsp.Negotiate.{WfdNegotiationResult}
use openplay.Prelude.{zero, suc, none, some, ok, err, refl, []}
use openplay.Prelude.{inl, inr, Option, ℕ, List, Text, ◌⊎◌, ◌∷◌, ◌≡◌, Result}
use openplay.Miracast.Session.{
  SessionEvent, ready, session_ended, Outcome, returned, serving, after_serve, after_negotiate,
  cast_on, run_session, Dial, no_answer, refused, connected, session_events, Round,
}

-- What a session sends, and how it stands then.
pub data IsRun : List SessionEvent × Outcome → Type 0 where
  never_ready : (e : MiracastError) → IsRun ([], returned (err e))
  ended_by_sink :
      (r : WfdNegotiationResult) → IsRun (ready r ∷ session_ended none ∷ [], returned (ok tt))
  broke_off :
      (r : WfdNegotiationResult) (e : MiracastError) → IsRun (ready r ∷ [], returned (err e))
  goes_on_casting : (r : WfdNegotiationResult) → IsRun (ready r ∷ [], serving)

-- The end of the session once, last, with at most one `Ready` before it.
pub data IsLifecycle : List SessionEvent → Type 0 where
  only_end : (o : Option MiracastError) → IsLifecycle (session_ended o ∷ [])
  ready_then_end :
      (r : WfdNegotiationResult) (o : Option MiracastError)
      → IsLifecycle (ready r ∷ session_ended o ∷ [])

after_serve-IsRun : (r : WfdNegotiationResult) (round : Round) → IsRun (after_serve r round)
unfolding after_serve
after_serve-IsRun r (ended (ok tt)) = ended_by_sink r
after_serve-IsRun r (ended (err e)) = broke_off r e
after_serve-IsRun r (goes_on n) = goes_on_casting r

after_negotiate-IsRun :
    (rounds : ℕ) (a : RtspConnection × Result WfdNegotiationResult MiracastError)
    → IsRun (after_negotiate rounds a)
unfolding after_negotiate
after_negotiate-IsRun rounds (c, err e) = never_ready e
after_negotiate-IsRun rounds (c, ok r) = after_serve-IsRun r _

cast_on-IsRun :
    (rounds : ℕ) (sink_addr : Text) (c : RtspConnection) → IsRun (cast_on rounds sink_addr c)
unfolding cast_on
cast_on-IsRun rounds sink_addr c = after_negotiate-IsRun rounds _

run_session-IsRun :
    (rounds : ℕ) (sink_addr : Text) (dial : Dial) → IsRun (run_session rounds sink_addr dial)
unfolding run_session
run_session-IsRun rounds sink_addr no_answer = never_ready _
run_session-IsRun rounds sink_addr (refused e) = never_ready _
run_session-IsRun rounds sink_addr (connected c) = cast_on-IsRun rounds sink_addr c

shut_down-IsLifecycle :
    (sent : ℕ) (run : List SessionEvent × Outcome)
    → IsRun run
    → IsLifecycle (session_events (some sent) run)
unfolding session_events
shut_down-IsLifecycle zero run h = only_end none
shut_down-IsLifecycle (suc sent) _ (never_ready e) = only_end none
shut_down-IsLifecycle (suc zero) _ (ended_by_sink r) = ready_then_end r none
shut_down-IsLifecycle (suc (suc zero)) _ (ended_by_sink r) = ready_then_end r none
shut_down-IsLifecycle (suc (suc (suc sent))) _ (ended_by_sink r) = ready_then_end r none
shut_down-IsLifecycle (suc zero) _ (broke_off r e) = ready_then_end r none
shut_down-IsLifecycle (suc (suc sent)) _ (broke_off r e) = ready_then_end r none
shut_down-IsLifecycle (suc zero) _ (goes_on_casting r) = ready_then_end r none
shut_down-IsLifecycle (suc (suc sent)) _ (goes_on_casting r) = ready_then_end r none

IsLifecycle-by :
    (shutdown : Option ℕ) (run : List SessionEvent × Outcome)
    → IsRun run
    → IsLifecycle (session_events shutdown run) ⊎ ((shutdown ≡ none) × (run.1 ≡ serving))
unfolding session_events
IsLifecycle-by (some sent) run h = inl (shut_down-IsLifecycle sent run h)
IsLifecycle-by none _ (never_ready e) = inl (only_end (some e))
IsLifecycle-by none _ (ended_by_sink r) = inl (ready_then_end r none)
IsLifecycle-by none _ (broke_off r e) = inl (ready_then_end r (some e))
IsLifecycle-by none _ (goes_on_casting r) = inr (refl, refl)

-- However the connection to a sink goes and whenever the session is shut down, its events are one
-- `Ended`, or a `Ready` and one `Ended`, except while it is not shut down and its control connection
-- is still served.
pub session_events-IsLifecycle :
    (rounds : ℕ) (sink_addr : Text) (dial : Dial) (shutdown : Option ℕ)
    → IsLifecycle (session_events shutdown (run_session rounds sink_addr dial))
      ⊎ ((shutdown ≡ none) × ((run_session rounds sink_addr dial).1 ≡ serving))
session_events-IsLifecycle rounds sink_addr dial shutdown =
    IsLifecycle-by shutdown (run_session rounds sink_addr dial)
      (run_session-IsRun rounds sink_addr dial)
