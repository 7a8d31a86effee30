-- ===== src/Protocol/StateMachine/Receiver/Messages.antt =====
-- What the receiver's machine does when messages alone drive it.
use openplay.Protocol.Message.{SignalingMessage}
use openplay.Prelude.{List, [], arith, none, some, ◌∷◌, ◌≡◌, ◌⊎◌}
use openplay.Protocol.StateMachine.Receiver.{
  ReceiverState, ReceiverStateMachine, next, transition, receiver_event_from_message, advertising,
  pending_connection,
}

-- The machine takes the event of a message, if the message has one.
unfoldable pub take_message : ReceiverStateMachine → SignalingMessage → ReceiverStateMachine
unfolding transition receiver_event_from_message
take_message machine m = elim (receiver_event_from_message m) [
  | none ↦ machine
  | some e ↦ (transition machine e).0
]

unfoldable pub take_messages : ReceiverStateMachine → List SignalingMessage → ReceiverStateMachine
take_messages machine [] = machine
take_messages machine (m ∷ past) = take_message (take_messages machine past) m

-- A receiver that nobody is connected to, or whose user has not answered yet.
abbrev pub IsUndecided : ReceiverState → Type 0
IsUndecided s = (s ≡ advertising) ⊎ (s ≡ pending_connection)

take_message-IsUndecided :
    (s : ReceiverState) (m : SignalingMessage)
    → IsUndecided s
    → IsUndecided (take_message (record { state = s }) m).state
unfolding take_message transition receiver_event_from_message next
take_message-IsUndecided _ _ h = ground arith

-- Messages alone never take a receiver past the pending connection: from a receiver that
-- advertises or waits for its user, no sequence of messages leads to authentication, signaling or
-- a picture.
pub receiver_messages-IsUndecided :
    (machine : ReceiverStateMachine) (past : List SignalingMessage)
    → IsUndecided machine.state
    → IsUndecided (take_messages machine past).state
unfolding take_messages
receiver_messages-IsUndecided machine [] h = h
receiver_messages-IsUndecided machine (m ∷ past) h =
    take_message-IsUndecided (take_messages machine past).state m
      (receiver_messages-IsUndecided machine past h)
