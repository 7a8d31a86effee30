-- ===== src/Protocol/StateMachine/Receiver.antt =====
-- crates/openplay-protocol/src/state.rs: the connection state machine of the receiver.
pub mod Messages
pub mod Reach
mod Examples
use openplay.Protocol.StateMachine.{StateError, invalid_transition}
use openplay.Protocol.Message.{SignalingMessage, session_request, session_end}
use openplay.Prelude.{
  All, Bool, List, Option, Result, Text, [], ap, arith, codes, drop, err, false, if◌then◌else◌, inl,
  inr, leb, length, ltb, none, not, ok, refl, some, suc, sym, take, true, zero, ℕ, ◌%◌, ◌&&◌, ◌*◌,
  ◌++◌, ◌+◌, ◌-◌, ◌/◌, ◌<◌, ◌==◌, ◌>>=◌, ◌>>◌, ◌^◌, ◌||◌, ◌↔◌, ◌∙◌, ◌∷◌, ◌≡◌, ◌≢◌, ◌≤◌, ◌⊎◌,
}

pub data ReceiverState : Type 0 where
  idle advertising pending_connection pairing authenticating signaling receiving disconnecting :
      ReceiverState

pub data ReceiverEvent : Type 0 where
  start_advertising stop_advertising incoming_connection needs_pairing already_paired rejected
        pairing_complete pairing_failed authenticated auth_failed stream_started signaling_failed
        disconnect connection_lost disconnected :
      ReceiverEvent

pub record ReceiverStateMachine : Type 0 where
  pub state : ReceiverState

-- The derived `Debug`.
abbrev pub state_debug : ReceiverState → Text
state_debug idle = codes "Idle"
state_debug advertising = codes "Advertising"
state_debug pending_connection = codes "PendingConnection"
state_debug pairing = codes "Pairing"
state_debug authenticating = codes "Authenticating"
state_debug signaling = codes "Signaling"
state_debug receiving = codes "Receiving"
state_debug disconnecting = codes "Disconnecting"

abbrev pub event_debug : ReceiverEvent → Text
event_debug start_advertising = codes "StartAdvertising"
event_debug stop_advertising = codes "StopAdvertising"
event_debug incoming_connection = codes "IncomingConnection"
event_debug needs_pairing = codes "NeedsPairing"
event_debug already_paired = codes "AlreadyPaired"
event_debug rejected = codes "Rejected"
event_debug pairing_complete = codes "PairingComplete"
event_debug pairing_failed = codes "PairingFailed"
event_debug authenticated = codes "Authenticated"
event_debug auth_failed = codes "AuthFailed"
event_debug stream_started = codes "StreamStarted"
event_debug signaling_failed = codes "SignalingFailed"
event_debug disconnect = codes "Disconnect"
event_debug connection_lost = codes "ConnectionLost"
event_debug disconnected = codes "Disconnected"

abbrev pub new : ReceiverStateMachine
new = record { state = idle }

-- The table that `transition` matches on; `none` stands for its last arm.
unfoldable pub next : ReceiverState → ReceiverEvent → Option ReceiverState
next idle start_advertising = some advertising
next advertising incoming_connection = some pending_connection
next advertising stop_advertising = some idle
next pending_connection needs_pairing = some pairing
next pending_connection already_paired = some authenticating
next pending_connection rejected = some advertising
next pairing pairing_complete = some authenticating
next pairing pairing_failed = some advertising
next authenticating authenticated = some signaling
next authenticating auth_failed = some advertising
next signaling stream_started = some receiving
next signaling signaling_failed = some advertising
next receiving disconnect = some disconnecting
next receiving connection_lost = some disconnecting
next disconnecting disconnected = some advertising
next _ _ = none

unfoldable pub transition :
    ReceiverStateMachine → ReceiverEvent → ReceiverStateMachine × Result ReceiverState StateError
transition machine event = elim (next machine.state event) [
  | none ↦ (
    machine,
    err (invalid_transition (state_debug machine.state) (codes "?") (event_debug event)),
  )
  | some t ↦ (record { state = t }, ok t)
]

unfoldable pub receiver_event_from_message : SignalingMessage → Option ReceiverEvent
receiver_event_from_message (session_request _ _ _ _) = some incoming_connection
receiver_event_from_message (session_end _) = some connection_lost
receiver_event_from_message _ = none
