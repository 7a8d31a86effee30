-- ===== src/Protocol/StateMachine/Sender/Examples.antt =====
-- Runs of the sender's state machine, and its theorems at concrete inputs.
use openplay.Protocol.Message.{auth_confirm}
use openplay.Prelude.{List, [], codes, err, refl, ◌∷◌, ◌≡◌}
use openplay.Protocol.StateMachine.{invalid_transition}
use openplay.Protocol.StateMachine.Sender.{
  SenderEvent, new, next, transition, idle, streaming, start_discovery, receiver_selected,
  connected, authenticated, stream_started, disconnect, sender_event_from_message,
}
use openplay.Protocol.StateMachine.Sender.Reach.{
  run, milestones, sender_milestones, sender_reach, route, way_back,
}
use openplay.Protocol.StateMachine.Sender.Messages.{
  take_message, take_messages, sender_messages_streaming,
}
use mathlib.Core.List.{Sublist as SublistOf}

abbrev cast : List SenderEvent
cast =
    stream_started ∷ disconnect ∷ authenticated ∷ connected ∷ receiver_selected ∷ start_discovery
    ∷ []

run-cast : run new cast ≡ record { state = streaming }
unfolding run transition next
run-cast = refl

transition-refused :
    transition new disconnect
    ≡ (new, err (invalid_transition (codes "Idle") (codes "?") (codes "Disconnect")))
unfolding transition next
transition-refused = refl

cast_milestones : SublistOf (milestones (run new cast).state) cast
cast_milestones = sender_milestones cast

sender_reach_streaming :
    ((run new (route streaming)).state ≡ streaming)
    × ((run (record { state = streaming }) (way_back streaming)).state ≡ idle)
sender_reach_streaming = sender_reach streaming

stays_streaming :
    (take_messages (record { state = streaming }) (auth_confirm [] ∷ [])).state ≡ streaming
unfolding take_messages take_message transition next sender_event_from_message
stays_streaming = refl

sender_messages_streaming_sample : streaming ≡ streaming
sender_messages_streaming_sample =
    sender_messages_streaming (record { state = streaming }) (auth_confirm [] ∷ []) stays_streaming
