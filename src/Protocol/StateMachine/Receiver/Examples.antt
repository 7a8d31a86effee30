-- ===== src/Protocol/StateMachine/Receiver/Examples.antt =====
-- Runs of the receiver's state machine, and its theorems at concrete inputs.
use openplay.Prelude.{List, [], codes, inl, refl, ◌∷◌, ◌≡◌}
use openplay.Protocol.Message.{default_capabilities, auth_confirm, session_request}
use openplay.Protocol.StateMachine.Receiver.{
  ReceiverEvent, new, next, transition, receiving, advertising, start_advertising,
  incoming_connection, already_paired, authenticated, stream_started, disconnect,
}
use openplay.Protocol.StateMachine.Receiver.Reach.{
  run, milestones, receiver_milestones, receiver_reach, route, way_back,
}
use openplay.Protocol.StateMachine.Receiver.Messages.{
  take_messages, IsUndecided, receiver_messages-IsUndecided,
}
use mathlib.Core.List.{Sublist as SublistOf}

abbrev watch : List ReceiverEvent
watch =
    stream_started ∷ disconnect ∷ authenticated ∷ already_paired ∷ incoming_connection
    ∷ start_advertising ∷ []

run-watch : run new watch ≡ record { state = receiving }
unfolding run transition next
run-watch = refl

watch_milestones : SublistOf (milestones (run new watch).state) watch
watch_milestones = receiver_milestones watch

receiver_reach_receiving :
    ((run new (route receiving)).state ≡ receiving)
    × ((run (record { state = receiving }) (way_back receiving)).state ≡ advertising)
receiver_reach_receiving = receiver_reach receiving

receiver_messages-IsUndecided_sample :
    IsUndecided
      (take_messages
        (record { state = advertising })
        (auth_confirm []
          ∷ session_request (codes "ann") (codes "Ann") 1 default_capabilities
          ∷ [])).state
receiver_messages-IsUndecided_sample =
    receiver_messages-IsUndecided (record { state = advertising })
      (auth_confirm [] ∷ session_request (codes "ann") (codes "Ann") 1 default_capabilities ∷ [])
      (inl refl)
