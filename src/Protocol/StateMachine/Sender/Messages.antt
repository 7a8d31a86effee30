-- ===== src/Protocol/StateMachine/Sender/Messages.antt =====
-- What the sender's machine does when messages alone drive it.
use openplay.Protocol.Message.{SignalingMessage}
use openplay.Prelude.{List, [], arith, none, refl, some, ◌∷◌, ◌≡◌}
use openplay.Protocol.StateMachine.Sender.{
  SenderState, SenderStateMachine, next, transition, sender_event_from_message, streaming,
}

-- The machine takes the event of a message, if the message has one.
unfoldable pub take_message : SenderStateMachine → SignalingMessage → SenderStateMachine
unfolding transition sender_event_from_message
take_message machine m = elim (sender_event_from_message m) [
  | none ↦ machine
  | some e ↦ (transition machine e).0
]

unfoldable pub take_messages : SenderStateMachine → List SignalingMessage → SenderStateMachine
take_messages machine [] = machine
take_messages machine (m ∷ past) = take_message (take_messages machine past) m

take_message-streaming :
    (s : SenderState) (m : SignalingMessage)
    → (take_message (record { state = s }) m).state ≡ streaming
    → s ≡ streaming
unfolding take_message transition sender_event_from_message next
take_message-streaming streaming _ h = refl
take_message-streaming _ _ h = ground arith

-- Messages alone never start a stream at the sender: if it streams after a sequence of messages,
-- it streamed before the first of them.
pub sender_messages_streaming :
    (machine : SenderStateMachine) (past : List SignalingMessage)
    → (take_messages machine past).state ≡ streaming
    → machine.state ≡ streaming
unfolding take_messages
sender_messages_streaming machine [] h = h
sender_messages_streaming machine (m ∷ past) h =
    sender_messages_streaming machine past
      (take_message-streaming (take_messages machine past).state m h)
