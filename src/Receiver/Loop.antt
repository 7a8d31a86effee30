-- ===== src/Receiver/Loop.antt =====
-- crates/openplay-receiver/src/net.rs: the state of the session loop and its operations. A method
-- that mutates the loop returns the new loop and the calls that it makes of the outside world, in
-- order. GStreamer answers through `MediaEnv`, and a reply handle's queue through `alive`.
pub mod Exclusive
pub mod Stranger
pub mod Consent
pub mod Liveness
pub mod Prompt
pub mod Trace
pub mod Repeat
mod Examples
use openplay.Prelude.{
  ℕ, ◌+◌, ◌%◌, ◌^◌, min, List, [], ◌∷◌, ◌++◌, Bool, true, false, not, Option, none, some, Text,
  codes, text_eq, any, ◌==◌, if◌then◌else◌, Result, ok, err,
}
use openplay.Prelude.Maps.{lookup, insert, remove, retain}
use openplay.Protocol.Message.{
  Capabilities, SignalingMessage, session_request, session_accept, session_reject, sdp_offer,
  sdp_answer, ice_candidate, ice_complete, ping, pong, session_end, busy, version_mismatch,
  no_compatible_codecs, denied, SessionEndReason, user_stopped, error,
}
use openplay.Signaling.{ConnectionHandle, IncomingMessage}

abbrev pub protocol_version : ℕ
protocol_version = 1

pub data Status : Type 0 where
  waiting : Status
  pending_consent : (sender_name : Text) (connection : ℕ) → Status
  negotiating : (sender_name : Text) → Status
  streaming : (sender_name : Text) → Status
  failed : (reason : Text) → Status

pub record VideoFrame : Type 0 where
  pub width : ℕ
  pub height : ℕ
  pub rgba : List ℕ

pub record FrameSlot : Type 0 where
  pub frame : Option VideoFrame
  pub sequence : ℕ

pub record Decision : Type 0 where
  pub connection : ℕ
  pub accept : Bool

pub record Pending : Type 0 where
  pub reply : ConnectionHandle
  pub display_name : Text
  pub framerate : ℕ

-- The pipeline and the peer are GStreamer objects, known by numbers.
pub record Media : Type 0 where
  pub pipeline : ℕ
  pub peer : ℕ

pub record Active : Type 0 where
  pub connection : ℕ
  pub reply : ConnectionHandle
  pub display_name : Text
  pub media : Option Media

-- The fields of `AppConfig` that the loop reads.
pub record LoopConfig : Type 0 where
  pub display_name : Text
  pub max_bitrate_kbps : ℕ
  pub framerate : ℕ

pub record SessionLoop : Type 0 where
  pub config : LoopConfig
  pub status : Status
  pub frame : FrameSlot
  pub pending : List (ℕ × Pending)
  pub active : Option Active
  pub undiscoverable : Option Text

-- Calls of the outside world.
pub data Effect : Type 0 where
  sent : ConnectionHandle → SignalingMessage → Effect
  built : (connection pipeline : ℕ) → Effect
  started : (pipeline : ℕ) → Effect
  offer_applied : (peer : ℕ) (sdp : Text) → Effect
  ice_added : (peer sdp_mline_index : ℕ) (candidate : Text) → Effect
  stopped : (pipeline : ℕ) → Effect

abbrev pub Step : Type 0
Step = SessionLoop × List Effect

-- What GStreamer and the clock answer while one message is handled.
pub record MediaEnv : Type 0 where
  pub with_frame_handler : Result ℕ Text
  pub start : Result (Unit {0}) Text
  pub peer : ℕ
  pub set_remote_description : Text → Result (Unit {0}) Text
  pub now_millis : ℕ

pub data SdpKind : Type 0 where
  offer answer : SdpKind

pub data WebRtcEvent : Type 0 where
  local_description : (kind : SdpKind) (sdp : Text) → WebRtcEvent
  local_candidate : (sdp_mline_index : ℕ) (candidate : Text) → WebRtcEvent
  ice_gathering_complete : WebRtcEvent
  connected : WebRtcEvent
  failure : (reason : Text) → WebRtcEvent
  disconnected : WebRtcEvent

abbrev pub empty_slot : FrameSlot
empty_slot = record { frame = none; sequence = 0 }

-- `SessionLoop::new`, on the status cell and the frame slot that `start` made.
unfoldable pub new : LoopConfig → Status → FrameSlot → Option Text → SessionLoop
new config status frame undiscoverable = record {
  config = config;
  status = status;
  frame = frame;
  pending = [];
  active = none;
  undiscoverable = undiscoverable;
}

-- The sequence is a u64 and wraps.
unfoldable pub store_frame : FrameSlot → VideoFrame → FrameSlot
store_frame slot f = record { frame = some f; sequence = (slot.sequence + 1) % 2 ^ 64 }

unfoldable pub clear_frame : FrameSlot → FrameSlot
clear_frame slot = record { frame = none; sequence = (slot.sequence + 1) % 2 ^ 64 }

unfoldable pub idle_status : Option Text → Status
idle_status (some reason) = failed reason
idle_status none = waiting

unfoldable pub reset_status : SessionLoop → SessionLoop
unfolding idle_status
reset_status s = record s { status = idle_status s.undiscoverable }

-- The pipeline is stopped if there is one, and the sender is told.
unfoldable pub end_session : Option Active → SessionEndReason → List Effect
end_session none reason = []
end_session (some a) reason = elim a.media [
  | none ↦ sent a.reply (session_end reason) ∷ []
  | some m ↦ stopped m.pipeline ∷ sent a.reply (session_end reason) ∷ []
]

unfoldable pub tear_down : SessionLoop → Step
unfolding end_session clear_frame reset_status
tear_down s = (
  reset_status (record s { active = none; frame = clear_frame s.frame }),
  end_session s.active user_stopped,
)

unfoldable pub fail : SessionLoop → Text → Step
unfolding end_session clear_frame
fail s reason = (
  record s { active = none; frame = clear_frame s.frame; status = failed reason },
  end_session s.active error,
)

abbrev pub offers_h264 : Capabilities → Bool
offers_h264 c = any (λ v. text_eq v (codes "h264")) c.video_codecs

-- The active session, if any, belongs to another connection.
unfoldable pub is_casting_for_other : Option Active → ℕ → Bool
is_casting_for_other none c = false
is_casting_for_other (some a) c = not (a.connection == c)

-- `self.pending.iter().next()` is the prompt of another connection.
unfoldable pub is_prompting_for_other : List (ℕ × Pending) → ℕ → Bool
is_prompting_for_other [] c = false
is_prompting_for_other ((k, p) ∷ m) c = not (k == c)

abbrev get_or : Option ℕ → ℕ → ℕ
get_or none d = d
get_or (some n) d = n

-- The request is put before the user.
unfoldable pub prompt : SessionLoop → ℕ → ConnectionHandle → Text → Capabilities → SessionLoop
prompt s connection reply display_name capabilities = record s {
  status = pending_consent display_name connection;
  pending =
      insert connection
        (record {
          reply = reply;
          display_name = display_name;
          framerate = min (get_or capabilities.max_framerate s.config.framerate) s.config.framerate;
        })
        s.pending;
}

unfoldable pub handle_session_request :
    SessionLoop → ℕ → ConnectionHandle → Text → ℕ → Capabilities → Step
unfolding is_casting_for_other is_prompting_for_other
handle_session_request s connection reply display_name version capabilities =
    if not (version == protocol_version)
    then (s, sent reply (session_reject version_mismatch) ∷ [])
    else if not (offers_h264 capabilities)
    then (s, sent reply (session_reject no_compatible_codecs) ∷ [])
    else if is_casting_for_other s.active connection
    then (s, sent reply (session_reject busy) ∷ [])
    else if is_prompting_for_other s.pending connection
    then (s, sent reply (session_reject busy) ∷ [])
    else (prompt s connection reply display_name capabilities, [])

-- The session that an approved request starts.
unfoldable pub approve : SessionLoop → ℕ → Pending → Step
approve s connection p = (
  record s {
    status = negotiating p.display_name;
    active = some (record {
      connection = connection;
      reply = p.reply;
      display_name = p.display_name;
      media = none;
    });
  },
  sent p.reply (
        session_accept s.config.display_name (record {
          video_codec = codes "h264";
          audio_codec = none;
          max_bitrate_kbps = s.config.max_bitrate_kbps;
          framerate = p.framerate;
        }))
      ∷ [],
)

unfoldable pub handle_decision : SessionLoop → Decision → Step
unfolding approve reset_status
handle_decision s d =
    let s' = record s { pending = remove d.connection s.pending } in
    elim (lookup d.connection s.pending) [
      | none ↦ (s, [])
      | some p ↦
          if not d.accept
          then (reset_status s', sent p.reply (session_reject denied) ∷ [])
          else approve s' d.connection p
    ]

abbrev after_effects : List Effect → Step → Step
after_effects es t = (t.0, es ++ t.1)

-- Builds the pipeline for the connection that the offer came from, starts it, then applies the offer.
unfoldable pub answer_offer : SessionLoop → Active → (connection : ℕ) → Text → MediaEnv → Step
unfolding fail
answer_offer s a connection sdp env = elim env.with_frame_handler [
  | err e ↦ fail s (codes "Could not start video: " ++ e)
  | ok pipeline ↦ elim env.start [
    | err e ↦
        after_effects (built connection pipeline ∷ [])
          (fail s (codes "Could not start video: " ++ e))
    | ok _ ↦ elim (env.set_remote_description sdp) [
      | err e ↦
          after_effects (built connection pipeline ∷ started pipeline ∷ [])
            (fail s (codes "Could not accept the video offer: " ++ e))
      | ok _ ↦ (
        record s {
          active =
              some (record a { media = some (record { pipeline = pipeline; peer = env.peer }) });
        },
        built connection pipeline ∷ started pipeline ∷ offer_applied env.peer sdp ∷ [],
      )
    ]
  ]
]

unfoldable pub handle_offer : SessionLoop → ℕ → Text → MediaEnv → Step
unfolding answer_offer
handle_offer s connection sdp env = elim s.active [
  | none ↦ (s, [])
  | some a ↦
      if not (a.connection == connection)
      then (s, [])
      else elim a.media [ some _ ↦ (s, []) | none ↦ answer_offer s a connection sdp env ]
]

-- The media of `connection`, if it owns the active session.
unfoldable pub media_for : Option Active → ℕ → Option Media
media_for none connection = none
media_for (some a) connection = if a.connection == connection then a.media else none

unfoldable pub owns_session : Option Active → ℕ → Bool
owns_session none connection = false
owns_session (some a) connection = a.connection == connection

unfoldable pub handle_session_end : SessionLoop → ℕ → Step
unfolding owns_session tear_down
handle_session_end s connection =
    let (t, effects) = if owns_session s.active connection then tear_down s else (s, []) in
    (record t { pending = remove connection t.pending }, effects)

unfoldable pub handle_ice : SessionLoop → ℕ → Text → Option ℕ → Step
unfolding media_for
handle_ice s connection candidate sdp_mline_index = elim (media_for s.active connection) [
  | none ↦ (s, [])
  | some m ↦ (s, ice_added m.peer (get_or sdp_mline_index 0) candidate ∷ [])
]

-- The `match message` of `handle_message`; the last clause is `other`, and IceComplete.
unfoldable pub handle_signaling :
    SignalingMessage → SessionLoop → (connection : ℕ) → ConnectionHandle → MediaEnv → Step
handle_signaling (session_request _ display_name version capabilities) s connection reply env =
    handle_session_request s connection reply display_name version capabilities
handle_signaling (sdp_offer sdp) s connection reply env = handle_offer s connection sdp env
handle_signaling (ice_candidate candidate _ sdp_mline_index) s connection reply env =
    handle_ice s connection candidate sdp_mline_index
handle_signaling (ping timestamp_ms) s connection reply env =
    (s, sent reply (pong timestamp_ms env.now_millis) ∷ [])
handle_signaling (session_end reason) s connection reply env = handle_session_end s connection
handle_signaling _ s connection reply env = (s, [])

unfoldable pub handle_message : SessionLoop → IncomingMessage → MediaEnv → Step
unfolding handle_signaling
handle_message s im env = handle_signaling im.message s im.connection im.reply env

unfoldable pub handle_webrtc_event : SessionLoop → WebRtcEvent → Step
unfolding tear_down fail
handle_webrtc_event s event = elim s.active [
  | none ↦ (s, [])
  | some a ↦ elim event [
    | local_description kind sdp ↦ elim kind [
      | answer ↦ (s, sent a.reply (sdp_answer sdp) ∷ [])
      | offer ↦ (s, [])
    ]
    | local_candidate index candidate ↦
        (s, sent a.reply (ice_candidate candidate none (some index)) ∷ [])
    | ice_gathering_complete ↦ (s, sent a.reply ice_complete ∷ [])
    | connected ↦ (record s { status = streaming a.display_name }, [])
    | disconnected ↦ tear_down s
    | failure reason ↦ fail s reason
  ]
]

unfoldable pub is_active_dead : (ConnectionHandle → Bool) → Option Active → Bool
is_active_dead alive none = false
is_active_dead alive (some a) = not (alive a.reply)

-- The prompt on the screen has no pending request behind it.
unfoldable pub is_stale_prompt : Status → List (ℕ × Pending) → Bool
is_stale_prompt (pending_consent name c) pending = elim (lookup c pending) [
  | none ↦ true
  | some p ↦ false
]
is_stale_prompt _ pending = false

unfoldable pub drop_dead_connections : SessionLoop → (ConnectionHandle → Bool) → Step
unfolding is_active_dead is_stale_prompt tear_down reset_status
drop_dead_connections s alive =
    let s' = record s { pending = retain (λ c p. alive p.reply) s.pending } in
    if is_active_dead alive s'.active
    then tear_down s'
    else if is_stale_prompt s'.status s'.pending
    then (reset_status s', [])
    else (s', [])

-- One round of the `select!` loop, and the frame handler that GStreamer calls meanwhile.
pub data LoopEvent : Type 0 where
  message : IncomingMessage → MediaEnv → LoopEvent
  decision : Decision → LoopEvent
  webrtc : WebRtcEvent → LoopEvent
  liveness : (ConnectionHandle → Bool) → LoopEvent
  frame_decoded : VideoFrame → LoopEvent

unfoldable pub step : SessionLoop → LoopEvent → Step
unfolding store_frame
step s (message im env) = handle_message s im env
step s (decision d) = handle_decision s d
step s (webrtc event) = handle_webrtc_event s event
step s (liveness alive) = drop_dead_connections s alive
step s (frame_decoded f) = (record s { frame = store_frame s.frame f }, [])
