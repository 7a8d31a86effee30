-- ===== src/Receiver/Loop/Exclusive.antt =====
-- One screen, one sender: at most one connection holds the session or the prompt.
use openplay.Protocol.Message.{
  Capabilities, SignalingMessage, session_request, sdp_offer, ice_candidate, session_end,
}
use openplay.Signaling.{ConnectionHandle, IncomingMessage}
use openplay.Prelude.Maps.{insert, remove, retain, lookup}
use openplay.Receiver.Loop.{
  Active, Pending, SessionLoop, fail, handle_session_request, insert, ConnectionHandle,
  Capabilities, drop_dead_connections, handle_webrtc_event, handle_message, tear_down, step,
  handle_session_end, handle_decision, handle_offer, WebRtcEvent, handle_ice, MediaEnv, LoopEvent,
  message, IncomingMessage, decision, Decision, webrtc, liveness, frame_decoded, handle_signaling,
  prompt,
}
use openplay.Prelude.{
  ℕ, refl, ◌≤◌, ◌≡◌, List, [], ◌∷◌, Option, none, some, length, All, arith, Text, subst, Bool,
}

-- The connection that holds the receiver: the session's, else that of the prompt.
abbrev pub holder_of : Option Active → List (ℕ × Pending) → Option ℕ
holder_of (some a) pending = some a.connection
holder_of none [] = none
holder_of none ((c, p) ∷ m) = some c

abbrev pub holder : SessionLoop → Option ℕ
holder s = holder_of s.active s.pending

-- There is one prompt at most, and it is the holder's.
pub record IsExclusive (s : SessionLoop) : Type 0 where
  pub single : length s.pending ≤ 1
  pub held : All (λ e. holder s ≡ some e.0) s.pending

-- A claim about a loop with one prompt at most is proved for no prompt and for one.
pub split_on_prompt {ℓ} :
    (P : SessionLoop → Type ℓ) (s : SessionLoop)
    → length s.pending ≤ 1
    → P (record s { pending = [] })
    → ((c : ℕ) (p : Pending) → P (record s { pending = (c, p) ∷ [] }))
    → P s
split_on_prompt P s h no_prompt one = go s.pending refl h
  where
    go : (m : List (ℕ × Pending)) → m ≡ s.pending → length m ≤ 1 → P s
    go [] e h = subst (λ m. P (record s { pending = m })) e no_prompt
    go ((c, p) ∷ []) e h = subst (λ m. P (record s { pending = m })) e (one c p)
    go (x ∷ y ∷ m) e h = absurd (omega arith)

-- An operation keeps `IsExclusive` if it does with no prompt and with one.
abbrev Keeps : (SessionLoop → SessionLoop) → SessionLoop → Type 0
Keeps f s = IsExclusive s → IsExclusive (f s)

by_prompt :
    (f : SessionLoop → SessionLoop) (s : SessionLoop)
    → Keeps f (record s { pending = [] })
    → ((c : ℕ) (p : Pending) → Keeps f (record s { pending = (c, p) ∷ [] }))
    → Keeps f s
by_prompt f s h0 h1 v = split_on_prompt (Keeps f) s v.single h0 h1 v

fail-IsExclusive : (s : SessionLoop) (r : Text) → IsExclusive s → IsExclusive (fail s r).0
unfolding fail
fail-IsExclusive s r = by_prompt (λ t. (fail t r).0) s (λ v. ground arith) (λ c p v. ground arith)

tear_down-IsExclusive : (s : SessionLoop) → IsExclusive s → IsExclusive (tear_down s).0
unfolding tear_down
tear_down-IsExclusive s =
    by_prompt (λ t. (tear_down t).0) s (λ v. ground arith) (λ c p v. ground arith)

handle_session_request-IsExclusive :
    (s : SessionLoop) (c : ℕ) (reply : ConnectionHandle) (name : Text) (version : ℕ)
    (caps : Capabilities)
    → IsExclusive s
    → IsExclusive (handle_session_request s c reply name version caps).0
unfolding handle_session_request prompt insert
handle_session_request-IsExclusive s c reply name version caps =
    by_prompt (λ t. (handle_session_request t c reply name version caps).0) s (λ v. ground arith)
      (λ c p v. ground arith)

handle_decision-IsExclusive :
    (s : SessionLoop) (d : Decision) → IsExclusive s → IsExclusive (handle_decision s d).0
unfolding handle_decision remove lookup
handle_decision-IsExclusive s d =
    by_prompt (λ t. (handle_decision t d).0) s (λ v. ground arith) (λ c p v. ground arith)

handle_offer-IsExclusive :
    (s : SessionLoop) (c : ℕ) (sdp : Text) (env : MediaEnv)
    → IsExclusive s
    → IsExclusive (handle_offer s c sdp env).0
unfolding handle_offer
handle_offer-IsExclusive s c sdp env =
    by_prompt (λ t. (handle_offer t c sdp env).0) s (λ v. ground arith) (λ c p v. ground arith)

handle_session_end-IsExclusive :
    (s : SessionLoop) (c : ℕ) → IsExclusive s → IsExclusive (handle_session_end s c).0
unfolding handle_session_end remove
handle_session_end-IsExclusive s c =
    by_prompt (λ t. (handle_session_end t c).0) s (λ v. ground arith) (λ c p v. ground arith)

pub handle_ice-keeps :
    (s : SessionLoop) (c : ℕ) (t : Text) (i : Option ℕ) → (handle_ice s c t i).0 ≡ s
unfolding handle_ice
handle_ice-keeps s c t i = ground arith

handle_signaling-IsExclusive :
    (m : SignalingMessage) (s : SessionLoop) (c : ℕ) (reply : ConnectionHandle) (env : MediaEnv)
    → IsExclusive s
    → IsExclusive (handle_signaling m s c reply env).0
unfolding handle_signaling
handle_signaling-IsExclusive (session_request _ n w k) s c r env v =
    handle_session_request-IsExclusive s c r n w k v
handle_signaling-IsExclusive (sdp_offer sdp) s c r env v = handle_offer-IsExclusive s c sdp env v
handle_signaling-IsExclusive (ice_candidate t _ i) s c r env v = rw handle_ice-keeps v
handle_signaling-IsExclusive (session_end _) s c r env v = handle_session_end-IsExclusive s c v
handle_signaling-IsExclusive _ s c r env v = v

handle_message-IsExclusive :
    (s : SessionLoop) (im : IncomingMessage) (env : MediaEnv)
    → IsExclusive s
    → IsExclusive (handle_message s im env).0
unfolding handle_message
handle_message-IsExclusive s im env =
    handle_signaling-IsExclusive im.message s im.connection im.reply env

drop_dead_connections-IsExclusive :
    (s : SessionLoop) (alive : ConnectionHandle → Bool)
    → IsExclusive s
    → IsExclusive (drop_dead_connections s alive).0
unfolding drop_dead_connections retain lookup
drop_dead_connections-IsExclusive s alive =
    by_prompt (λ t. (drop_dead_connections t alive).0) s (λ v. ground arith) (λ c p v. ground arith)

handle_webrtc_event-IsExclusive :
    (s : SessionLoop) (e : WebRtcEvent) → IsExclusive s → IsExclusive (handle_webrtc_event s e).0
unfolding handle_webrtc_event
handle_webrtc_event-IsExclusive s e =
    by_prompt (λ t. (handle_webrtc_event t e).0) s (λ v. ground arith) (λ c p v. ground arith)

-- Whatever happens, at most one connection holds the receiver: one prompt at most is open, and
-- while a session is active the prompt, if any, is that of the session's own connection.
pub step-IsExclusive : (s : SessionLoop) (e : LoopEvent) → IsExclusive s → IsExclusive (step s e).0
unfolding step
step-IsExclusive s (message im env) v = handle_message-IsExclusive s im env v
step-IsExclusive s (decision d) v = handle_decision-IsExclusive s d v
step-IsExclusive s (webrtc e) v = handle_webrtc_event-IsExclusive s e v
step-IsExclusive s (liveness alive) v = drop_dead_connections-IsExclusive s alive v
step-IsExclusive s (frame_decoded f) v = record { single = v.single; held = v.held }
