-- ===== src/Receiver/Loop/Prompt.antt =====
-- The prompt names the sender that the answer is applied to.
use openplay.Receiver.Loop.Exclusive.{split_on_prompt, handle_ice-keeps}
use openplay.Signaling.{ConnectionHandle}
use openplay.Prelude.Maps.{insert, remove, retain, lookup}
use openplay.Protocol.Message.{
  SignalingMessage, session_request, Capabilities, sdp_offer, ice_candidate, session_end,
}
use openplay.Receiver.Loop.{
  SessionLoop, drop_dead_connections, handle_decision, handle_offer, handle_session_end,
  handle_session_request, handle_signaling, handle_webrtc_event, step, remove, SignalingMessage,
  retain, Pending, Decision, handle_message, WebRtcEvent, insert, MediaEnv, pending_consent,
  LoopEvent, ConnectionHandle, message, decision, webrtc, liveness, frame_decoded, prompt,
}
use openplay.Prelude.{Bool, Text, arith, length, some, ℕ, ◌≡◌, ◌≤◌}

-- The name on the screen is that of the request which a decision would approve.
abbrev pub IsTruthful : SessionLoop → Type 0
IsTruthful s =
    (name : Text) (c : ℕ) (p : Pending)
    → s.status ≡ pending_consent name c
    → lookup c s.pending ≡ some p
    → p.display_name ≡ name

abbrev Truths : (SessionLoop → SessionLoop) → SessionLoop → Type 0
Truths f s = IsTruthful s → IsTruthful (f s)

handle_session_request-IsTruthful :
    (s : SessionLoop) (c : ℕ) (reply : ConnectionHandle) (name : Text) (version : ℕ)
    (caps : Capabilities)
    → length s.pending ≤ 1
    → IsTruthful s
    → IsTruthful (handle_session_request s c reply name version caps).0
unfolding handle_session_request prompt insert lookup
handle_session_request-IsTruthful s c reply name version caps h =
    split_on_prompt (Truths (λ t. (handle_session_request t c reply name version caps).0)) s h
      (λ t n k p e l. ground (arith, t n k p)) (λ j q t n k p e l. ground (arith, t n k p))

handle_decision-IsTruthful :
    (s : SessionLoop) (d : Decision) → IsTruthful s → IsTruthful (handle_decision s d).0
unfolding handle_decision
handle_decision-IsTruthful s d t n k p e l = ground (arith, t n k p)

handle_offer-IsTruthful :
    (s : SessionLoop) (c : ℕ) (sdp : Text) (env : MediaEnv)
    → IsTruthful s
    → IsTruthful (handle_offer s c sdp env).0
unfolding handle_offer
handle_offer-IsTruthful s c sdp env t n k p e l = ground (arith, t n k p)

handle_session_end-IsTruthful :
    (s : SessionLoop) (c : ℕ)
    → length s.pending ≤ 1
    → IsTruthful s
    → IsTruthful (handle_session_end s c).0
unfolding handle_session_end remove lookup
handle_session_end-IsTruthful s c h =
    split_on_prompt (Truths (λ t. (handle_session_end t c).0)) s h
      (λ t n k p e l. ground (arith, t n k p)) (λ j q t n k p e l. ground (arith, t n k p))

handle_signaling-IsTruthful :
    (m : SignalingMessage) (s : SessionLoop) (c : ℕ) (reply : ConnectionHandle) (env : MediaEnv)
    → length s.pending ≤ 1
    → IsTruthful s
    → IsTruthful (handle_signaling m s c reply env).0
unfolding handle_signaling
handle_signaling-IsTruthful (session_request _ n w k) s c r env h t =
    handle_session_request-IsTruthful s c r n w k h t
handle_signaling-IsTruthful (sdp_offer sdp) s c r env h t = handle_offer-IsTruthful s c sdp env t
handle_signaling-IsTruthful (ice_candidate x _ i) s c r env h t = rw handle_ice-keeps t
handle_signaling-IsTruthful (session_end _) s c r env h t = handle_session_end-IsTruthful s c h t
handle_signaling-IsTruthful _ s c r env h t = t

handle_webrtc_event-IsTruthful :
    (s : SessionLoop) (v : WebRtcEvent) → IsTruthful s → IsTruthful (handle_webrtc_event s v).0
unfolding handle_webrtc_event
handle_webrtc_event-IsTruthful s v t n k p e l = ground (arith, t n k p)

drop_dead_connections-IsTruthful :
    (s : SessionLoop) (alive : ConnectionHandle → Bool)
    → length s.pending ≤ 1
    → IsTruthful s
    → IsTruthful (drop_dead_connections s alive).0
unfolding drop_dead_connections retain lookup
drop_dead_connections-IsTruthful s alive h =
    split_on_prompt (Truths (λ t. (drop_dead_connections t alive).0)) s h
      (λ t n k p e l. ground (arith, t n k p)) (λ j q t n k p e l. ground (arith, t n k p))

pub step-IsTruthful :
    (s : SessionLoop) (e : LoopEvent)
    → length s.pending ≤ 1
    → IsTruthful s
    → IsTruthful (step s e).0
unfolding step handle_message
step-IsTruthful s (message im env) h t =
    handle_signaling-IsTruthful im.message s im.connection im.reply env h t
step-IsTruthful s (decision d) h t = handle_decision-IsTruthful s d t
step-IsTruthful s (webrtc e) h t = handle_webrtc_event-IsTruthful s e t
step-IsTruthful s (liveness alive) h t = drop_dead_connections-IsTruthful s alive h t
step-IsTruthful s (frame_decoded f) h t = t
