-- ===== src/Protocol/StateMachine/Sender/Reach.antt =====
-- The states that the sender's machine can reach, and by which events.
use openplay.Prelude.{
  List, Option, [], inl, inr, none, refl, some, ◌∷◌, ◌≡◌, Option-cases, subst, arith, sym,
}
use openplay.Protocol.StateMachine.Sender.{
  SenderState, SenderEvent, SenderStateMachine, new, next, transition, idle, discovering,
  connecting, pairing, authenticating, signaling, streaming, disconnecting, start_discovery,
  receiver_selected, cancel, connected, needs_pairing, timeout, pairing_complete, pairing_failed,
  authenticated, auth_failed, stream_started, signaling_failed, disconnect, connection_lost,
  disconnected,
}
use mathlib.Core.List.{nil-sublist, sublist_of_cons-sublist}
use mathlib.Core.List.{Sublist as SublistOf}
use mathlib.Core.List.Sublist

-- The machine after a list of events, the latest first; an event that fails leaves it as it is.
unfoldable pub run : SenderStateMachine → List SenderEvent → SenderStateMachine
run machine [] = machine
run machine (e ∷ past) = (transition (run machine past) e).0

-- What must have happened, the latest first, for the machine to be in a state.
abbrev pub milestones : SenderState → List SenderEvent
milestones idle = []
milestones discovering = start_discovery ∷ []
milestones connecting = receiver_selected ∷ start_discovery ∷ []
milestones pairing = needs_pairing ∷ receiver_selected ∷ start_discovery ∷ []
milestones authenticating = receiver_selected ∷ start_discovery ∷ []
milestones signaling = authenticated ∷ receiver_selected ∷ start_discovery ∷ []
milestones streaming = stream_started ∷ authenticated ∷ receiver_selected ∷ start_discovery ∷ []
milestones disconnecting = stream_started ∷ authenticated ∷ receiver_selected ∷ start_discovery ∷ []

abbrev HasOption : List SenderEvent → Option SenderState → Type 0
HasOption past none = Unit {0}
HasOption past (some s) = SublistOf (milestones s) past

next-milestones :
    (s : SenderState) (e : SenderEvent) (past : List SenderEvent)
    → SublistOf (milestones s) past
    → HasOption (e ∷ past) (next s e)
unfolding next
next-milestones idle start_discovery past h = Sublist.cons-cons start_discovery h
next-milestones discovering receiver_selected past h = Sublist.cons-cons receiver_selected h
next-milestones discovering cancel past h = nil-sublist _
next-milestones connecting connected past h = Sublist.cons connected h
next-milestones connecting needs_pairing past h = Sublist.cons-cons needs_pairing h
next-milestones connecting timeout past h = nil-sublist _
next-milestones connecting cancel past h = nil-sublist _
next-milestones pairing pairing_complete past h =
    Sublist.cons pairing_complete (sublist_of_cons-sublist h)
next-milestones pairing pairing_failed past h = nil-sublist _
next-milestones pairing cancel past h = nil-sublist _
next-milestones authenticating authenticated past h = Sublist.cons-cons authenticated h
next-milestones authenticating auth_failed past h = nil-sublist _
next-milestones signaling stream_started past h = Sublist.cons-cons stream_started h
next-milestones signaling signaling_failed past h = nil-sublist _
next-milestones streaming disconnect past h = Sublist.cons disconnect h
next-milestones streaming connection_lost past h = Sublist.cons connection_lost h
next-milestones disconnecting disconnected past h = nil-sublist _
next-milestones _ _ past h = tt

transition-state :
    (machine : SenderStateMachine) (e : SenderEvent)
    → next machine.state e ≡ none
    → (transition machine e).0.state ≡ machine.state
unfolding transition
transition-state machine e h = ground arith

transition-state_some :
    (machine : SenderStateMachine) (e : SenderEvent) {t : SenderState}
    → next machine.state e ≡ some t
    → (transition machine e).0.state ≡ t
unfolding transition
transition-state_some machine e h = ground arith

transition-milestones :
    (machine : SenderStateMachine) (e : SenderEvent) (past : List SenderEvent)
    → SublistOf (milestones machine.state) past
    → SublistOf (milestones (transition machine e).0.state) (e ∷ past)
transition-milestones machine e past h = elim (Option-cases (next machine.state e)) [
  | inl miss ↦ subst Holds (sym (transition-state machine e miss)) (Sublist.cons e h)
  | inr (t, hit) ↦
      subst Holds (sym (transition-state_some machine e hit))
        (subst (HasOption (e ∷ past)) hit (next-milestones machine.state e past h))
]
  where
    Holds : SenderState → Type 0
    Holds s = SublistOf (milestones s) (e ∷ past)

-- In any history from the start, the events of `milestones` have happened in their order: in
-- particular the machine is `streaming` only after they all did.
pub sender_milestones : (past : List SenderEvent) → SublistOf (milestones (run new past).state) past
unfolding run
sender_milestones [] = nil-sublist []
sender_milestones (e ∷ past) = transition-milestones (run new past) e past (sender_milestones past)

-- Events, the latest first, that lead from the start to a state.
abbrev pub route : SenderState → List SenderEvent
route idle = []
route discovering = start_discovery ∷ []
route connecting = receiver_selected ∷ start_discovery ∷ []
route pairing = needs_pairing ∷ receiver_selected ∷ start_discovery ∷ []
route authenticating = connected ∷ receiver_selected ∷ start_discovery ∷ []
route signaling = authenticated ∷ connected ∷ receiver_selected ∷ start_discovery ∷ []
route streaming =
    stream_started ∷ authenticated ∷ connected ∷ receiver_selected ∷ start_discovery ∷ []
route disconnecting =
    disconnect ∷ stream_started ∷ authenticated ∷ connected ∷ receiver_selected ∷ start_discovery
    ∷ []

-- Events, the latest first, that lead from a state to `idle`.
abbrev pub way_back : SenderState → List SenderEvent
way_back idle = []
way_back discovering = cancel ∷ []
way_back connecting = cancel ∷ []
way_back pairing = cancel ∷ []
way_back authenticating = auth_failed ∷ []
way_back signaling = signaling_failed ∷ []
way_back streaming = disconnected ∷ disconnect ∷ []
way_back disconnecting = disconnected ∷ []

-- Every state can be reached from the start, and from every state the machine can get to
-- `idle`.
pub sender_reach :
    (s : SenderState)
    → ((run new (route s)).state ≡ s) × ((run (record { state = s }) (way_back s)).state ≡ idle)
unfolding run transition next
sender_reach idle = (refl, refl)
sender_reach discovering = (refl, refl)
sender_reach connecting = (refl, refl)
sender_reach pairing = (refl, refl)
sender_reach authenticating = (refl, refl)
sender_reach signaling = (refl, refl)
sender_reach streaming = (refl, refl)
sender_reach disconnecting = (refl, refl)
