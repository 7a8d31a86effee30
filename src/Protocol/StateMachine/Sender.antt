-- ===== src/Protocol/StateMachine/Sender.antt =====
-- crates/openplay-protocol/src/state.rs: the connection state machine of the sender.
pub mod Messages
pub mod Reach
mod Examples
use openplay.Protocol.StateMachine.{StateError, invalid_transition}
use openplay.Protocol.Message.{
  SignalingMessage, session_accept, session_reject, pairing_challenge, pairing_confirm,
  auth_confirm, session_end,
}
use openplay.Prelude.{
  All, Bool, List, Option, Result, Text, [], ap, arith, codes, drop, err, false, if◌then◌else◌, inl,
  inr, leb, length, ltb, none, not, ok, refl, some, suc, sym, take, true, zero, ℕ, ◌%◌, ◌&&◌, ◌*◌,
  ◌++◌, ◌+◌, ◌-◌, ◌/◌, ◌<◌, ◌==◌, ◌>>=◌, ◌>>◌, ◌^◌, ◌||◌, ◌↔◌, ◌∙◌, ◌∷◌, ◌≡◌, ◌≢◌, ◌≤◌, ◌⊎◌,
}

pub data SenderState : Type 0 where
  idle discovering connecting pairing authenticating signaling streaming disconnecting : SenderState

pub data SenderEvent : Type 0 where
  start_discovery receiver_selected cancel connected needs_pairing timeout pairing_complete
        pairing_failed authenticated auth_failed stream_started signaling_failed disconnect
        connection_lost disconnected :
      SenderEvent

pub record SenderStateMachine : Type 0 where
  pub state : SenderState

-- The derived `Debug`.
abbrev pub state_debug : SenderState → Text
state_debug idle = codes "Idle"
state_debug discovering = codes "Discovering"
state_debug connecting = codes "Connecting"
state_debug pairing = codes "Pairing"
state_debug authenticating = codes "Authenticating"
state_debug signaling = codes "Signaling"
state_debug streaming = codes "Streaming"
state_debug disconnecting = codes "Disconnecting"

abbrev pub event_debug : SenderEvent → Text
event_debug start_discovery = codes "StartDiscovery"
event_debug receiver_selected = codes "ReceiverSelected"
event_debug cancel = codes "Cancel"
event_debug connected = codes "Connected"
event_debug needs_pairing = codes "NeedsPairing"
event_debug timeout = codes "Timeout"
event_debug pairing_complete = codes "PairingComplete"
event_debug pairing_failed = codes "PairingFailed"
event_debug authenticated = codes "Authenticated"
event_debug auth_failed = codes "AuthFailed"
event_debug stream_started = codes "StreamStarted"
event_debug signaling_failed = codes "SignalingFailed"
event_debug disconnect = codes "Disconnect"
event_debug connection_lost = codes "ConnectionLost"
event_debug disconnected = codes "Disconnected"

abbrev pub new : SenderStateMachine
new = record { state = idle }

-- The table that `transition` matches on; `none` stands for its last arm.
unfoldable pub next : SenderState → SenderEvent → Option SenderState
next idle start_discovery = some discovering
next discovering receiver_selected = some connecting
next discovering cancel = some idle
next connecting connected = some authenticating
next connecting needs_pairing = some pairing
next connecting timeout = some idle
next connecting cancel = some idle
next pairing pairing_complete = some authenticating
next pairing pairing_failed = some idle
next pairing cancel = some idle
next authenticating authenticated = some signaling
next authenticating auth_failed = some idle
next signaling stream_started = some streaming
next signaling signaling_failed = some idle
next streaming disconnect = some disconnecting
next streaming connection_lost = some disconnecting
next disconnecting disconnected = some idle
next _ _ = none

unfoldable pub transition :
    SenderStateMachine → SenderEvent → SenderStateMachine × Result SenderState StateError
transition machine event = elim (next machine.state event) [
  | none ↦ (
    machine,
    err (invalid_transition (state_debug machine.state) (codes "?") (event_debug event)),
  )
  | some t ↦ (record { state = t }, ok t)
]

unfoldable pub sender_event_from_message : SignalingMessage → Option SenderEvent
sender_event_from_message (session_accept _ _) = some authenticated
sender_event_from_message (session_reject _) = some auth_failed
sender_event_from_message (pairing_challenge _) = some needs_pairing
sender_event_from_message (pairing_confirm _ _) = some pairing_complete
sender_event_from_message (auth_confirm _) = some authenticated
sender_event_from_message (session_end _) = some connection_lost
sender_event_from_message _ = none
