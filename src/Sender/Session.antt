-- ===== src/Sender/Session.antt =====
-- crates/openplay-sender/src/casting.rs: the session of the sender after its request. A round of a
-- select loop is the stop flag at its start and what happened in it; a script of rounds that is over
-- leaves the loop running (`none`).
pub mod Accepted
mod Examples
use openplay.Protocol.Message.{
  busy, version_mismatch, no_compatible_codecs, not_paired, denied, session_accept, session_reject,
  sdp_answer, ice_candidate, session_end, SignalingMessage, RejectReason, sdp_offer, ice_complete,
  user_stopped,
}
use openplay.Receiver.Loop.{
  offer, answer, connected, disconnected, failure, local_description, local_candidate,
  ice_gathering_complete, WebRtcEvent,
}
use openplay.Receiver.Loop.{WebRtcEvent, local_description, local_candidate, failure}
use openplay.Protocol.Message.{
  RejectReason, SignalingMessage, session_accept, sdp_answer, session_reject, session_end,
  user_stopped, ice_candidate, sdp_offer, ice_complete,
}
use openplay.Prelude.{
  none, some, ok, err, true, false, [], if◌then◌else◌, List, Option, Bool, Result, ◌++◌, Text, ◌∷◌,
  ℕ, codes,
}

-- What `incoming.recv()` or the timer of 250 ms gave.
pub data Heard : Type 0 where
  received : Option SignalingMessage → Heard
  slept : Heard

abbrev pub Answer : Type 0
Answer = Result (Unit {0}) Text

-- `none` while the loop runs.
abbrev pub Outcome : Type 0
Outcome = Option Answer

unfoldable pub describe_rejection : RejectReason → Text
describe_rejection busy = codes "Receiver is already showing another device"
describe_rejection version_mismatch =
    codes "Receiver runs a different OpenPlay version — update both ends"
describe_rejection no_compatible_codecs = codes "Receiver does not support H.264"
describe_rejection not_paired = codes "This device is not paired with the receiver"
describe_rejection denied = codes "The person at the receiver declined the cast"

-- What a message means for the wait; `none` goes on waiting.
unfoldable pub wait_round : Heard → Outcome
unfolding describe_rejection
wait_round (received (some (session_accept receiver_id negotiated))) = some (ok tt)
wait_round (received (some (session_reject reason))) = some (err (describe_rejection reason))
wait_round (received (some other)) = none
wait_round (received none) = some (err (codes "Receiver closed the connection"))
wait_round slept = none

unfoldable pub or_wait : Outcome → (next : Outcome) → Outcome
or_wait none next = next
or_wait (some r) next = some r

unfoldable pub wait_for_session_accept : (script : List (Bool × Heard)) → Outcome
unfolding wait_round or_wait
wait_for_session_accept [] = none
wait_for_session_accept ((stopped, heard) ∷ script) =
    let rest = wait_for_session_accept script in
    if stopped
    then some (err (codes "Casting stopped by user"))
    else or_wait (wait_round heard) rest

-- What a round of `drive_session` saw.
pub data Happened : Type 0 where
  event : Option WebRtcEvent → Happened
  message : Heard → Happened

pub data Call : Type 0 where
  sent : SignalingMessage → Call
  set_remote_description : (sdp : Text) → Call
  add_ice_candidate : (sdp_mline_index : ℕ) (candidate : Text) → Call
  stop_pipeline : Call

-- A round: the stop flag, whether the queue to the receiver takes a message, what
-- `set_remote_description` answers, and what happened.
pub record Round : Type 0 where
  pub stopped : Bool
  pub queue_open : Bool
  pub set_remote : Answer
  pub happened : Happened

unfoldable pub send_or_fail : (queue_open : Bool) → SignalingMessage → Outcome × List Call
send_or_fail true m = (none, sent m ∷ [])
send_or_fail false m = (some (err (codes "Receiver closed the connection")), [])

unfoldable pub drive_event : (queue_open : Bool) → Option WebRtcEvent → Outcome × List Call
unfolding send_or_fail
drive_event queue none = (some (err (codes "WebRTC event channel closed")), [])
drive_event queue (some (local_description offer sdp)) = send_or_fail queue (sdp_offer sdp)
drive_event queue (some (local_description answer sdp)) = (none, [])
drive_event queue (some (local_candidate index candidate)) =
    send_or_fail queue (ice_candidate candidate none (some index))
drive_event queue (some ice_gathering_complete) = send_or_fail queue ice_complete
drive_event queue (some connected) = (none, [])
drive_event queue (some disconnected) = (some (ok tt), [])
drive_event queue (some (failure reason)) =
    (some (err (codes "Media session failed: " ++ reason)), [])

unfoldable pub after_answer : Answer → Outcome
after_answer (ok u) = none
after_answer (err e) = some (err (codes "Receiver sent an unusable answer: " ++ e))

-- `unwrap_or(0)`.
unfoldable pub index_or_zero : Option ℕ → ℕ
index_or_zero none = 0
index_or_zero (some n) = n

unfoldable pub drive_message : (set_remote : Answer) → Heard → Outcome × List Call
unfolding after_answer index_or_zero
drive_message set_remote (received (some (sdp_answer sdp))) =
    (after_answer set_remote, set_remote_description sdp ∷ [])
drive_message set_remote (received (some (ice_candidate candidate sdp_mid index))) =
    (none, add_ice_candidate (index_or_zero index) candidate ∷ [])
drive_message set_remote (received (some (session_end reason))) = (some (ok tt), [])
drive_message set_remote (received (some other)) = (none, [])
drive_message set_remote (received none) = (some (err (codes "Receiver closed the connection")), [])
drive_message set_remote slept = (none, [])

unfoldable pub drive_round : Bool → Answer → Happened → Outcome × List Call
unfolding drive_event drive_message
drive_round queue set_remote (event e) = drive_event queue e
drive_round queue set_remote (message m) = drive_message set_remote m

-- A round that ends the session drops the rounds after it.
unfoldable pub and_then : Outcome × List Call → (next : Outcome × List Call) → Outcome × List Call
and_then (none, calls) (result, more) = (result, calls ++ more)
and_then (some r, calls) next = (some r, calls)

unfoldable pub drive_session : (script : List Round) → Outcome × List Call
unfolding drive_round and_then
drive_session [] = (none, [])
drive_session (r ∷ script) =
    let rest = drive_session script in
    if r.stopped
    then (some (err (codes "Casting stopped by user")), [])
    else and_then (drive_round r.queue_open r.set_remote r.happened) rest

-- What `pipeline.stop()?` leaves of the outcome of the session.
unfoldable pub stop_or : Answer → Answer → Answer
stop_or (err e) outcome = err e
stop_or (ok u) outcome = outcome

-- The end of a driven session: the farewell, which is put down also where the queue to the receiver is
-- closed and the code ignores its loss, and the pipeline's stop.
unfoldable pub finish : (stop : Answer) → Outcome × List Call → Outcome × List Call
unfolding stop_or
finish stop (none, calls) = (none, calls)
finish stop (some outcome, calls) =
    (some (stop_or stop outcome), calls ++ (sent (session_end user_stopped) ∷ stop_pipeline ∷ []))

-- What GStreamer answers to the making, the start and the stop of the pipeline.
pub record Media : Type 0 where
  pub make : Answer
  pub start : Answer
  pub stop : Answer

unfoldable pub cast_media : Media → List Round → Answer → Answer → Outcome × List Call
unfolding finish drive_session
cast_media media script (err e) start = (some (err e), [])
cast_media media script (ok u) (err e) = (some (err e), [])
cast_media media script (ok u) (ok v) = finish media.stop (drive_session script)

unfoldable pub after_wait : Media → List Round → Outcome → Outcome × List Call
unfolding cast_media
after_wait media script none = (none, [])
after_wait media script (some (err e)) = (some (err e), [])
after_wait media script (some (ok u)) = cast_media media script media.make media.start

unfoldable pub with_request : SignalingMessage → Outcome × List Call → Outcome × List Call
with_request request (outcome, calls) = (outcome, sent request ∷ calls)

-- The sender from its request on; `waits` and `script` are the rounds of its two loops.
unfoldable pub run_openplay_pipeline :
    SignalingMessage
    → (queue_open : Bool) (waits : List (Bool × Heard)) → Media
    → List Round
    → Outcome × List Call
unfolding after_wait wait_for_session_accept with_request
run_openplay_pipeline request true waits media script =
    with_request request (after_wait media script (wait_for_session_accept waits))
run_openplay_pipeline request false waits media script =
    (some (err (codes "Signaling closed before the session request was sent")), [])
