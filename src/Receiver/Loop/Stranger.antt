-- ===== src/Receiver/Loop/Stranger.antt =====
-- Messages from a connection that does not hold the receiver.
use openplay.Prelude.{Text, [], arith, refl, some, true, ℕ, ◌∷◌, ◌≡◌, ◌≢◌, List, All, Option}
use openplay.Signaling.{ConnectionHandle, IncomingMessage}
use openplay.Receiver.Loop.Exclusive.{IsExclusive, holder, split_on_prompt}
use openplay.Prelude.Maps.{remove}
use openplay.Protocol.Message.{
  SignalingMessage, Capabilities, session_request, sdp_offer, ice_candidate, session_reject, busy,
  session_end, ping,
}
use openplay.Receiver.Loop.{
  handle_message, handle_offer, handle_session_end, handle_session_request, handle_signaling,
  SessionLoop, remove, SignalingMessage, ℕ, ConnectionHandle, IncomingMessage, MediaEnv,
  offers_h264, protocol_version, sent, Effect, handle_ice, media_for,
}

-- What a stranger may cause: a message to itself.
abbrev pub IsReplyTo : ConnectionHandle → Effect → Type 0
IsReplyTo reply (sent to message) = to ≡ reply
IsReplyTo reply _ = ⊥

-- The state stays, and nothing happens but replies.
abbrev pub OnlyReplies : SessionLoop → ConnectionHandle → SessionLoop × List Effect → Type 0
OnlyReplies s reply (t, effects) = (t ≡ s) × All (IsReplyTo reply) effects

handle_session_request_stranger :
    (s : SessionLoop) (h c : ℕ) (reply : ConnectionHandle) (name : Text) (version : ℕ)
    (caps : Capabilities)
    → holder s ≡ some h
    → c ≢ h
    → OnlyReplies s reply (handle_session_request s c reply name version caps)
unfolding handle_session_request
handle_session_request_stranger s h c reply name version caps e ne = ground arith

handle_offer_stranger :
    (s : SessionLoop) (h c : ℕ) (reply : ConnectionHandle) (sdp : Text) (env : MediaEnv)
    → holder s ≡ some h
    → c ≢ h
    → OnlyReplies s reply (handle_offer s c sdp env)
unfolding handle_offer
handle_offer_stranger s h c reply sdp env e ne = ground arith

handle_ice_stranger :
    (s : SessionLoop) (h c : ℕ) (reply : ConnectionHandle) (candidate : Text) (index : Option ℕ)
    → holder s ≡ some h
    → c ≢ h
    → OnlyReplies s reply (handle_ice s c candidate index)
unfolding handle_ice media_for
handle_ice_stranger s h c reply candidate index e ne = ground arith

handle_session_end_stranger :
    (s : SessionLoop) (h c : ℕ) (reply : ConnectionHandle)
    → IsExclusive s
    → holder s ≡ some h
    → c ≢ h
    → OnlyReplies s reply (handle_session_end s c)
unfolding handle_session_end remove
handle_session_end_stranger s h c reply v =
    split_on_prompt
      (λ t.
        IsExclusive t → holder t ≡ some h → c ≢ h → OnlyReplies t reply (handle_session_end t c))
      s v.single (λ v e ne. ground arith) (λ k p v e ne. ground arith) v

handle_signaling_stranger :
    (m : SignalingMessage) (s : SessionLoop) (h c : ℕ) (reply : ConnectionHandle) (env : MediaEnv)
    → IsExclusive s
    → holder s ≡ some h
    → c ≢ h
    → OnlyReplies s reply (handle_signaling m s c reply env)
unfolding handle_signaling
handle_signaling_stranger (session_request _ n w k) s h c r env v e ne =
    handle_session_request_stranger s h c r n w k e ne
handle_signaling_stranger (sdp_offer sdp) s h c r env v e ne =
    handle_offer_stranger s h c r sdp env e ne
handle_signaling_stranger (ice_candidate t _ i) s h c r env v e ne =
    handle_ice_stranger s h c r t i e ne
handle_signaling_stranger (ping _) s h c r env v e ne = (refl, (refl, tt))
handle_signaling_stranger (session_end _) s h c r env v e ne =
    handle_session_end_stranger s h c r v e ne
handle_signaling_stranger _ s h c r env v e ne = (refl, tt)

-- While one connection holds the receiver, by a session or by the prompt on the screen, no
-- message from any other connection changes anything: not the session, the prompt, the status or
-- the picture; and all that it causes is messages to that other connection itself. No pipeline is
-- built, started or stopped, and nothing reaches the peer of the session.
pub handle_message_stranger :
    (s : SessionLoop) (h : ℕ) (im : IncomingMessage) (env : MediaEnv)
    → IsExclusive s
    → holder s ≡ some h
    → im.connection ≢ h
    → ((handle_message s im env).0 ≡ s) × All (IsReplyTo im.reply) (handle_message s im env).1
unfolding handle_message
handle_message_stranger s h im env v e ne =
    handle_signaling_stranger im.message s h im.connection im.reply env v e ne

-- A request from another connection that the receiver could serve is answered with `busy`, and
-- with nothing else.
pub handle_session_request_busy :
    (s : SessionLoop) (h c : ℕ) (reply : ConnectionHandle) (name : Text) (caps : Capabilities)
    → holder s ≡ some h
    → c ≢ h
    → offers_h264 caps ≡ true
    → handle_session_request s c reply name protocol_version caps
      ≡ (s, sent reply (session_reject busy) ∷ [])
unfolding handle_session_request
handle_session_request_busy s h c reply name caps e ne o = ground arith
