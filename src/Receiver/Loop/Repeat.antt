-- ===== src/Receiver/Loop/Repeat.antt =====
-- A sender that asks again while its own session is active.
use openplay.Receiver.Loop.Exclusive.{IsExclusive, split_on_prompt}
use openplay.Protocol.Message.{Capabilities}
use openplay.Signaling.{ConnectionHandle}
use openplay.Prelude.Maps.{insert, lookup, remove}
use openplay.Receiver.Loop.{
  handle_session_request, prompt, insert, handle_decision, SessionLoop, Active, ConnectionHandle,
  Capabilities, offers_h264, protocol_version, pending_consent, idle_status,
}
use openplay.Prelude.{Text, arith, false, some, true, ◌≡◌}

-- If the sender of the active session asks again and the user denies that request, the session
-- stays active, while the window goes back to the page of a receiver that waits.
pub denied_repeat_keeps_session :
    (s : SessionLoop) (a : Active) (reply : ConnectionHandle) (name : Text) (caps : Capabilities)
    → IsExclusive s
    → s.active ≡ some a
    → offers_h264 caps ≡ true
    → let t = (handle_session_request s a.connection reply name protocol_version caps).0 in
      let u = (handle_decision t (record { connection = a.connection; accept = false })).0 in
      (t.status ≡ pending_consent name a.connection)
      × (u.active ≡ some a)
      × (u.status ≡ idle_status s.undiscoverable)
unfolding handle_session_request prompt insert handle_decision lookup remove
denied_repeat_keeps_session s a reply name caps v e h =
    split_on_prompt
      (λ s.
        IsExclusive s
        → s.active ≡ some a
        → let t = (handle_session_request s a.connection reply name protocol_version caps).0 in
          let u = (handle_decision t (record { connection = a.connection; accept = false })).0 in
          (t.status ≡ pending_consent name a.connection)
          × (u.active ≡ some a)
          × (u.status ≡ idle_status s.undiscoverable))
      s v.single (λ v e. ground arith) (λ c p v e. ground arith) v e
