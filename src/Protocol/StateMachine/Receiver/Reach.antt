-- ===== src/Protocol/StateMachine/Receiver/Reach.antt =====
-- The states that the receiver's machine can reach, and by which events.
use openplay.Prelude.{
  List, Option, [], inl, inr, none, refl, some, ◌∷◌, ◌≡◌, Option-cases, subst, arith, sym,
}
use openplay.Protocol.StateMachine.Receiver.{
  ReceiverState, ReceiverEvent, ReceiverStateMachine, new, next, transition, idle, advertising,
  pending_connection, pairing, authenticating, signaling, receiving, disconnecting,
  start_advertising, stop_advertising, incoming_connection, needs_pairing, already_paired, rejected,
  pairing_complete, pairing_failed, authenticated, auth_failed, stream_started, signaling_failed,
  disconnect, connection_lost, disconnected,
}
use mathlib.Core.List.{nil-sublist, sublist_of_cons-sublist}
use mathlib.Core.List.{Sublist as SublistOf}
use mathlib.Core.List.Sublist

-- The machine after a list of events, the latest first; an event that fails leaves it as it is.
unfoldable pub run : ReceiverStateMachine → List ReceiverEvent → ReceiverStateMachine
run machine [] = machine
run machine (e ∷ past) = (transition (run machine past) e).0

-- What must have happened, the latest first, for the machine to be in a state.
abbrev pub milestones : ReceiverState → List ReceiverEvent
milestones idle = []
milestones advertising = start_advertising ∷ []
milestones pending_connection = incoming_connection ∷ start_advertising ∷ []
milestones pairing = needs_pairing ∷ incoming_connection ∷ start_advertising ∷ []
milestones authenticating = incoming_connection ∷ start_advertising ∷ []
milestones signaling = authenticated ∷ incoming_connection ∷ start_advertising ∷ []
milestones receiving = stream_started ∷ authenticated ∷ incoming_connection ∷ start_advertising ∷ []
milestones disconnecting =
    stream_started ∷ authenticated ∷ incoming_connection ∷ start_advertising ∷ []

abbrev HasOption : List ReceiverEvent → Option ReceiverState → Type 0
HasOption past none = Unit {0}
HasOption past (some s) = SublistOf (milestones s) past

next-milestones :
    (s : ReceiverState) (e : ReceiverEvent) (past : List ReceiverEvent)
    → SublistOf (milestones s) past
    → HasOption (e ∷ past) (next s e)
unfolding next
next-milestones idle start_advertising past h = Sublist.cons-cons start_advertising h
next-milestones advertising incoming_connection past h = Sublist.cons-cons incoming_connection h
next-milestones advertising stop_advertising past h = nil-sublist _
next-milestones pending_connection needs_pairing past h = Sublist.cons-cons needs_pairing h
next-milestones pending_connection already_paired past h = Sublist.cons already_paired h
next-milestones pending_connection rejected past h =
    Sublist.cons rejected (sublist_of_cons-sublist h)
next-milestones pairing pairing_complete past h =
    Sublist.cons pairing_complete (sublist_of_cons-sublist h)
next-milestones pairing pairing_failed past h =
    Sublist.cons pairing_failed (sublist_of_cons-sublist (sublist_of_cons-sublist h))
next-milestones authenticating authenticated past h = Sublist.cons-cons authenticated h
next-milestones authenticating auth_failed past h =
    Sublist.cons auth_failed (sublist_of_cons-sublist h)
next-milestones signaling stream_started past h = Sublist.cons-cons stream_started h
next-milestones signaling signaling_failed past h =
    Sublist.cons signaling_failed (sublist_of_cons-sublist (sublist_of_cons-sublist h))
next-milestones receiving disconnect past h = Sublist.cons disconnect h
next-milestones receiving connection_lost past h = Sublist.cons connection_lost h
next-milestones disconnecting disconnected past h =
    Sublist.cons disconnected
      (sublist_of_cons-sublist (sublist_of_cons-sublist (sublist_of_cons-sublist h)))
next-milestones _ _ past h = tt

transition-state :
    (machine : ReceiverStateMachine) (e : ReceiverEvent)
    → next machine.state e ≡ none
    → (transition machine e).0.state ≡ machine.state
unfolding transition
transition-state machine e h = ground arith

transition-state_some :
    (machine : ReceiverStateMachine) (e : ReceiverEvent) {t : ReceiverState}
    → next machine.state e ≡ some t
    → (transition machine e).0.state ≡ t
unfolding transition
transition-state_some machine e h = ground arith

transition-milestones :
    (machine : ReceiverStateMachine) (e : ReceiverEvent) (past : List ReceiverEvent)
    → SublistOf (milestones machine.state) past
    → SublistOf (milestones (transition machine e).0.state) (e ∷ past)
transition-milestones machine e past h = elim (Option-cases (next machine.state e)) [
  | inl miss ↦ subst Holds (sym (transition-state machine e miss)) (Sublist.cons e h)
  | inr (t, hit) ↦
      subst Holds (sym (transition-state_some machine e hit))
        (subst (HasOption (e ∷ past)) hit (next-milestones machine.state e past h))
]
  where
    Holds : ReceiverState → Type 0
    Holds s = SublistOf (milestones s) (e ∷ past)

-- In any history from the start, the events of `milestones` have happened in their order: in
-- particular the machine is `receiving` only after they all did.
pub receiver_milestones :
    (past : List ReceiverEvent) → SublistOf (milestones (run new past).state) past
unfolding run
receiver_milestones [] = nil-sublist []
receiver_milestones (e ∷ past) =
    transition-milestones (run new past) e past (receiver_milestones past)

-- Events, the latest first, that lead from the start to a state.
abbrev pub route : ReceiverState → List ReceiverEvent
route idle = []
route advertising = start_advertising ∷ []
route pending_connection = incoming_connection ∷ start_advertising ∷ []
route pairing = needs_pairing ∷ incoming_connection ∷ start_advertising ∷ []
route authenticating = already_paired ∷ incoming_connection ∷ start_advertising ∷ []
route signaling = authenticated ∷ already_paired ∷ incoming_connection ∷ start_advertising ∷ []
route receiving =
    stream_started ∷ authenticated ∷ already_paired ∷ incoming_connection ∷ start_advertising ∷ []
route disconnecting =
    disconnect ∷ stream_started ∷ authenticated ∷ already_paired ∷ incoming_connection
    ∷ start_advertising ∷ []

-- Events, the latest first, that lead from a state to `advertising`.
abbrev pub way_back : ReceiverState → List ReceiverEvent
way_back idle = start_advertising ∷ []
way_back advertising = []
way_back pending_connection = rejected ∷ []
way_back pairing = pairing_failed ∷ []
way_back authenticating = auth_failed ∷ []
way_back signaling = signaling_failed ∷ []
way_back receiving = disconnected ∷ disconnect ∷ []
way_back disconnecting = disconnected ∷ []

-- Every state can be reached from the start, and from every state the machine can get to
-- `advertising`.
pub receiver_reach :
    (s : ReceiverState)
    → ((run new (route s)).state ≡ s)
      × ((run (record { state = s }) (way_back s)).state ≡ advertising)
unfolding run transition next
receiver_reach idle = (refl, refl)
receiver_reach advertising = (refl, refl)
receiver_reach pending_connection = (refl, refl)
receiver_reach pairing = (refl, refl)
receiver_reach authenticating = (refl, refl)
receiver_reach signaling = (refl, refl)
receiver_reach receiving = (refl, refl)
receiver_reach disconnecting = (refl, refl)
