-- ===== src/Receiver/Loop/Examples.antt =====
-- Runs of the session loop, and its theorems at concrete states.
use openplay.Receiver.Loop.Repeat.{denied_repeat_keeps_session}
use openplay.Prelude.Maps.{insert, lookup, remove}
use openplay.Receiver.Loop.Stranger.{
  handle_message_stranger, handle_session_request_busy, IsReplyTo,
}
use openplay.Receiver.Loop.{
  Active, LoopConfig, LoopEvent, MediaEnv, handle_message, idle_status, new, step,
  drop_dead_connections, message, handle_session_request, SessionLoop, decision, waiting, prompt,
  pending_consent, sent, handle_decision, insert, empty_slot, handle_offer,
}
use openplay.Signaling.{ConnectionHandle}
use openplay.Protocol.Message.{
  SignalingMessage, sdp_offer, session_request, default_capabilities, session_reject, busy,
  ice_candidate,
}
use openplay.Receiver.Loop.Trace.{after, IsStart, after-IsExclusive, decide_names_sender}
use openplay.Receiver.Loop.Exclusive.{IsExclusive, holder, step-IsExclusive}
use openplay.Receiver.Loop.Liveness.{IsAnswerable, drop_dead_connections-IsLive}
use openplay.Receiver.Loop.Consent.{
  Consented, Licensed, session_needs_consent, pipeline_needs_consent,
}
use openplay.Prelude.{
  All, List, [], arith, codes, false, none, ok, refl, some, true, ℕ, ◌∷◌, ◌≡◌, text_eq,
}

abbrev config : LoopConfig
config = record { display_name = codes "tv"; max_bitrate_kbps = 6000; framerate = 30 }

start_state : SessionLoop
unfolding new
start_state = new config waiting empty_slot none

start_state-IsStart : IsStart start_state
unfolding start_state idle_status
start_state-IsStart = record { no_prompt = refl; no_session = refl; idle = refl }

abbrev env : MediaEnv
env = record {
  with_frame_handler = ok 40;
  start = ok tt;
  peer = 50;
  set_remote_description = λ sdp. ok tt;
  now_millis = 0;
}

abbrev handle_of : ℕ → ConnectionHandle
handle_of c = record { id = c }

abbrev incoming : ℕ → SignalingMessage → LoopEvent
incoming c m = message (record { message = m; reply = handle_of c; connection = c; peer = 9 }) env

abbrev asks : ℕ → LoopEvent
asks c = incoming c (session_request (codes "id") (codes "ann") 1 default_capabilities)

abbrev allow : ℕ → LoopEvent
allow c = decision (record { connection = c; accept = true })

-- Connection 7 asks, is allowed and sends its offer; the latest event stands first.
abbrev cast : List LoopEvent
cast = incoming 7 (sdp_offer (codes "v=0")) ∷ allow 7 ∷ asks 7 ∷ []

abbrev casting : Active
casting = record {
  connection = 7;
  reply = handle_of 7;
  display_name = codes "ann";
  media = some (record { pipeline = 40; peer = 50 });
}

after-cast : (after start_state cast).active ≡ some casting
unfolding start_state after step handle_message handle_session_request prompt insert handle_decision
    lookup remove handle_offer text_eq
after-cast = refl

after-asks : (after start_state (asks 7 ∷ [])).status ≡ pending_consent (codes "ann") 7
unfolding start_state after step handle_message handle_session_request prompt text_eq
after-asks = refl

holder-cast : holder (after start_state cast) ≡ some 7
holder-cast = rw after-cast refl

step-IsExclusive_example : IsExclusive (step (after start_state cast) (asks 8)).0
step-IsExclusive_example =
    step-IsExclusive (after start_state cast) (asks 8)
      (after-IsExclusive start_state cast start_state-IsStart)

handle_message_stranger_example :
    let r =
      handle_message
        (after start_state cast)
        (record {
          message = ice_candidate (codes "candidate:1") none (some 0);
          reply = handle_of 8;
          connection = 8;
          peer = 9;
        })
        env in
    (r.0 ≡ after start_state cast) × All (IsReplyTo (handle_of 8)) r.1
handle_message_stranger_example =
    handle_message_stranger (after start_state cast) 7
      (record {
        message = ice_candidate (codes "candidate:1") none (some 0);
        reply = handle_of 8;
        connection = 8;
        peer = 9;
      })
      env (after-IsExclusive start_state cast start_state-IsStart) holder-cast (omega arith)

handle_session_request_busy_sample :
    handle_session_request
      (after start_state cast)
      8
      (handle_of 8)
      (codes "eve")
      1
      default_capabilities
    ≡ (after start_state cast, sent (handle_of 8) (session_reject busy) ∷ [])
unfolding text_eq
handle_session_request_busy_sample =
    handle_session_request_busy (after start_state cast) 7 8 (handle_of 8) (codes "eve")
      default_capabilities holder-cast (omega arith) refl

drop_dead_connections-IsLive_sample :
    IsAnswerable (drop_dead_connections (after start_state cast) (λ h. false)).0
drop_dead_connections-IsLive_sample =
    (drop_dead_connections-IsLive (after start_state cast) (λ h. false)).1

decide_names_sender_sample :
    let a = record casting { media = none } in
    (a.connection ≡ 7) × (a.display_name ≡ codes "ann") × (a.media ≡ none)
unfolding start_state after step handle_message handle_session_request prompt insert handle_decision
    lookup remove handle_offer text_eq
decide_names_sender_sample =
    decide_names_sender start_state (asks 7 ∷ []) (codes "ann") 7 (record casting { media = none })
      start_state-IsStart refl refl refl

session_needs_consent_example : Consented 7 cast
session_needs_consent_example =
    session_needs_consent start_state cast casting start_state-IsStart after-cast

pipeline_needs_consent_example :
    All
      (Licensed (λ c. Consented c (allow 7 ∷ asks 7 ∷ [])))
      (step (after start_state (allow 7 ∷ asks 7 ∷ [])) (incoming 7 (sdp_offer (codes "v=0")))).1
pipeline_needs_consent_example =
    pipeline_needs_consent start_state (allow 7 ∷ asks 7 ∷ [])
      (incoming 7 (sdp_offer (codes "v=0"))) start_state-IsStart

denied_repeat_keeps_session_example :
    let t =
      (handle_session_request
        (after start_state cast)
        7
        (handle_of 7)
        (codes "bob")
        1
        default_capabilities).0 in
    let u = (handle_decision t (record { connection = 7; accept = false })).0 in
    (t.status ≡ pending_consent (codes "bob") 7)
    × (u.active ≡ some casting)
    × (u.status ≡ idle_status (after start_state cast).undiscoverable)
unfolding text_eq
denied_repeat_keeps_session_example =
    denied_repeat_keeps_session (after start_state cast) casting (handle_of 7) (codes "bob")
      default_capabilities (after-IsExclusive start_state cast start_state-IsStart) after-cast refl
