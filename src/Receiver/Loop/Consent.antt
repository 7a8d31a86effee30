-- ===== src/Receiver/Loop/Consent.antt =====
-- Nothing is shown without the consent of the user. A history lists its events the latest first.
use openplay.Receiver.Loop.Trace.{IsStart, after}
use openplay.Receiver.Loop.Exclusive.{handle_ice-keeps}
use openplay.Signaling.{ConnectionHandle}
use openplay.Prelude.Maps.{All-remove, remove, All-retain, All-insert, lookup, All-lookup}
use openplay.Protocol.Message.{
  SignalingMessage, session_request, Capabilities, sdp_offer, ice_candidate, session_end,
}
use openplay.Receiver.Loop.{
  Effect, LoopEvent, SessionLoop, handle_decision, handle_offer, handle_session_end,
  handle_session_request, handle_webrtc_event, Active, decision, WebRtcEvent, Decision, MediaEnv,
  ConnectionHandle, built, message, protocol_version, offers_h264, prompt, step, handle_signaling,
  drop_dead_connections, handle_message, handle_ice, webrtc, liveness, frame_decoded,
}
use openplay.Prelude.{
  All, Bool, List, Option, Text, [], arith, inl, inr, none, refl, some, sym, true, ℕ, ◌∷◌, ◌≡◌, ◌⊎◌,
  Option-cases, All-mono, subst,
}

-- A request from connection `c` that passes the version and codec checks.
abbrev Requests : ℕ → ℕ → SignalingMessage → Type 0
Requests c k (session_request _ name version caps) =
    (k ≡ c) × (version ≡ protocol_version) × (offers_h264 caps ≡ true)
Requests c k _ = ⊥

abbrev IsRequest : ℕ → LoopEvent → Type 0
IsRequest c (message im env) = Requests c im.connection im.message
IsRequest c _ = ⊥

abbrev IsAccept : ℕ → LoopEvent → Type 0
IsAccept c (decision d) = (d.connection ≡ c) × (d.accept ≡ true)
IsAccept c _ = ⊥

-- Connection `c` has asked to cast.
abbrev pub Asked : ℕ → List LoopEvent → Type 0
Asked c [] = ⊥
Asked c (e ∷ past) = IsRequest c e ⊎ Asked c past

-- The user has allowed connection `c`, after it asked.
abbrev pub Consented : ℕ → List LoopEvent → Type 0
Consented c [] = ⊥
Consented c (e ∷ past) = (IsAccept c e × Asked c past) ⊎ Consented c past

abbrev OfSession : (ℕ → Type 0) → Option Active → Type 0
OfSession Allowed none = Unit
OfSession Allowed (some a) = Allowed a.connection

-- Requests are from `Ask`, and the session is from `Allowed`.
record Inv (Ask Allowed : ℕ → Type 0) (s : SessionLoop) : Type 0 where
  prompts : All (λ e. Ask e.0) s.pending
  session : OfSession Allowed s.active

-- A pipeline is built for a connection of `Allowed`.
abbrev pub Licensed : (ℕ → Type 0) → Effect → Type 0
Licensed Allowed (built c pipeline) = Allowed c
Licensed Allowed _ = Unit

module _ (Ask Allowed : ℕ → Type 0) where
  prompt-Inv :
      (s : SessionLoop) (c : ℕ) (reply : ConnectionHandle) (name : Text) (caps : Capabilities)
      → Ask c
      → Inv Ask Allowed s
      → Inv Ask Allowed (prompt s c reply name caps)
  unfolding prompt
  prompt-Inv s c reply name caps h v = record {
    prompts = All-insert (λ e. Ask e.0) c _ s.pending h v.prompts;
    session = v.session;
  }

  handle_session_request-Inv :
      (s : SessionLoop) (c : ℕ) (reply : ConnectionHandle) (name : Text) (version : ℕ)
      (caps : Capabilities)
      → (version ≡ protocol_version → offers_h264 caps ≡ true → Ask c)
      → Inv Ask Allowed s
      → Inv Ask Allowed (handle_session_request s c reply name version caps).0
  unfolding handle_session_request
  handle_session_request-Inv s c reply name version caps asked v =
      ground (arith, prompt-Inv s c reply name caps, asked, v)

  remove-Inv :
      (s : SessionLoop) (c : ℕ)
      → Inv Ask Allowed s
      → Inv Ask Allowed (record s { pending = remove c s.pending })
  remove-Inv s c v = record {
    prompts = All-remove (λ e. Ask e.0) c s.pending v.prompts;
    session = v.session;
  }

  handle_decision-Inv :
      (s : SessionLoop) (d : Decision)
      → (d.accept ≡ true → Ask d.connection → Allowed d.connection)
      → Inv Ask Allowed s
      → Inv Ask Allowed (handle_decision s d).0
  unfolding handle_decision
  handle_decision-Inv s d allowed v = elim (Option-cases (lookup d.connection s.pending)) [
    | inl miss ↦ rw (miss, handle_decision) v
    | inr (p, hit) ↦
        let asked = All-lookup (λ e. Ask e.0) d.connection s.pending hit v.prompts in
        ground (arith, remove-Inv s d.connection v, allowed, asked)
  ]

  handle_offer-Inv :
      (s : SessionLoop) (c : ℕ) (sdp : Text) (env : MediaEnv)
      → Inv Ask Allowed s
      → Inv Ask Allowed (handle_offer s c sdp env).0
  unfolding handle_offer
  handle_offer-Inv s c sdp env v = ground (arith, v)

  handle_session_end-Inv :
      (s : SessionLoop) (c : ℕ) → Inv Ask Allowed s → Inv Ask Allowed (handle_session_end s c).0
  unfolding handle_session_end
  handle_session_end-Inv s c v = ground (arith, remove-Inv s c v)

  handle_webrtc_event-Inv :
      (s : SessionLoop) (e : WebRtcEvent)
      → Inv Ask Allowed s
      → Inv Ask Allowed (handle_webrtc_event s e).0
  unfolding handle_webrtc_event
  handle_webrtc_event-Inv s e v = ground (arith, v)

  drop_dead_connections-Inv :
      (s : SessionLoop) (alive : ConnectionHandle → Bool)
      → Inv Ask Allowed s
      → Inv Ask Allowed (drop_dead_connections s alive).0
  unfolding drop_dead_connections
  drop_dead_connections-Inv s alive v =
      ground (arith, v, All-retain (λ e. Ask e.0) (λ c p. alive p.reply) s.pending v.prompts)

  handle_signaling-Inv :
      (m : SignalingMessage) (s : SessionLoop) (c : ℕ) (reply : ConnectionHandle) (env : MediaEnv)
      → (Requests c c m → Ask c)
      → Inv Ask Allowed s
      → Inv Ask Allowed (handle_signaling m s c reply env).0
  unfolding handle_signaling
  handle_signaling-Inv (session_request _ n w k) s c r env asked v =
      handle_session_request-Inv s c r n w k (λ x y. asked (refl, x, y)) v
  handle_signaling-Inv (sdp_offer sdp) s c r env asked v = handle_offer-Inv s c sdp env v
  handle_signaling-Inv (ice_candidate x _ i) s c r env asked v = rw handle_ice-keeps v
  handle_signaling-Inv (session_end _) s c r env asked v = handle_session_end-Inv s c v
  handle_signaling-Inv _ s c r env asked v = v

  -- A pipeline is only built for the session.
  handle_signaling-Licensed :
      (m : SignalingMessage) (s : SessionLoop) (c : ℕ) (reply : ConnectionHandle) (env : MediaEnv)
      → OfSession Allowed s.active
      → All (Licensed Allowed) (handle_signaling m s c reply env).1
  unfolding handle_signaling handle_session_request handle_offer handle_ice handle_session_end
  handle_signaling-Licensed (session_request _ n w k) s c r env v = ground arith
  handle_signaling-Licensed _ s c r env v = ground (arith, v)

abbrev ConsentInv : List LoopEvent → SessionLoop → Type 0
ConsentInv past = Inv (λ c. Asked c past) (λ c. Consented c past)

OfSession-mono :
    (A B : ℕ → Type 0) (o : Option Active) → ((c : ℕ) → A c → B c) → OfSession A o → OfSession B o
OfSession-mono A B none f h = tt
OfSession-mono A B (some a) f h = f a.connection h

Inv-mono :
    (Ask Allowed Ask' Allowed' : ℕ → Type 0) (s : SessionLoop)
    → ((c : ℕ) → Ask c → Ask' c)
    → ((c : ℕ) → Allowed c → Allowed' c)
    → Inv Ask Allowed s
    → Inv Ask' Allowed' s
Inv-mono Ask Allowed Ask' Allowed' s f g v = record {
  prompts = All-mono (λ e. Ask e.0) (λ e. Ask' e.0) s.pending (λ e. f e.0) v.prompts;
  session = OfSession-mono Allowed Allowed' s.active g v.session;
}

-- What has been asked and allowed stays so.
later :
    (e : LoopEvent) (past : List LoopEvent) (s : SessionLoop)
    → ConsentInv past s
    → ConsentInv (e ∷ past) s
later e past s v = Inv-mono _ _ _ _ s (λ c h. inr h) (λ c h. inr h) v

step-ConsentInv :
    (e : LoopEvent) (past : List LoopEvent) (s : SessionLoop)
    → ConsentInv past s
    → ConsentInv (e ∷ past) (step s e).0
unfolding step handle_message
step-ConsentInv (message im env) past s v =
    handle_signaling-Inv _ _ im.message s im.connection im.reply env (λ r. inl r)
      (later (message im env) past s v)
step-ConsentInv (decision d) past s v =
    Inv-mono (λ c. Asked c past) (λ c. Consented c (decision d ∷ past)) _ _ _ (λ c h. inr h)
      (λ c h. h)
      (handle_decision-Inv _ _ s d (λ accepted asked. inl ((refl, accepted), asked))
        (Inv-mono _ _ _ _ s (λ c h. h) (λ c h. inr h) v))
step-ConsentInv (webrtc e) past s v = handle_webrtc_event-Inv _ _ s e (later (webrtc e) past s v)
step-ConsentInv (liveness alive) past s v =
    drop_dead_connections-Inv _ _ s alive (later (liveness alive) past s v)
step-ConsentInv (frame_decoded f) past s v =
    let w = later (frame_decoded f) past s v in record { prompts = w.prompts; session = w.session }

after-ConsentInv :
    (s : SessionLoop) (past : List LoopEvent) → IsStart s → ConsentInv past (after s past)
unfolding after
after-ConsentInv s [] b = record {
  prompts = subst (λ m. All (λ e. Asked e.0 []) m) (sym b.no_prompt) tt;
  session = subst (OfSession (λ c. Consented c [])) (sym b.no_session) tt;
}
after-ConsentInv s (e ∷ past) b = step-ConsentInv e past (after s past) (after-ConsentInv s past b)

-- After any history since the start of the receiver, if a session is active then its connection
-- asked for it, with the right protocol version and H.264, and the user allowed that connection
-- afterwards.
pub session_needs_consent :
    (s : SessionLoop) (past : List LoopEvent) (a : Active)
    → IsStart s
    → (after s past).active ≡ some a
    → Consented a.connection past
session_needs_consent s past a b e =
    subst (OfSession (λ c. Consented c past)) e (after-ConsentInv s past b).session

step-Licensed :
    (Allowed : ℕ → Type 0) (s : SessionLoop) (e : LoopEvent)
    → OfSession Allowed s.active
    → All (Licensed Allowed) (step s e).1
unfolding step handle_message
step-Licensed Allowed s (message im env) v =
    handle_signaling-Licensed Allowed Allowed im.message s im.connection im.reply env v
step-Licensed Allowed s (decision d) v = unfold handle_decision in ground arith
step-Licensed Allowed s (webrtc e) v = unfold handle_webrtc_event in ground arith
step-Licensed Allowed s (liveness alive) v = unfold drop_dead_connections in ground arith
step-Licensed Allowed s (frame_decoded f) v = tt

-- Whatever comes next after any history, the receiver builds a video pipeline only for a
-- connection that asked and that the user has allowed since.
pub pipeline_needs_consent :
    (s : SessionLoop) (past : List LoopEvent) (e : LoopEvent)
    → IsStart s
    → All (Licensed (λ c. Consented c past)) (step (after s past) e).1
pipeline_needs_consent s past e b =
    step-Licensed (λ c. Consented c past) (after s past) e (after-ConsentInv s past b).session
