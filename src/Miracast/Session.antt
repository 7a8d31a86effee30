-- ===== src/Miracast/Session.antt =====
-- crates/openplay-miracast/src/session.rs: the session of a cast to a Miracast sink, over the network
-- or over Wi-Fi Direct. The wait for the peer's discovery is left out: what it finds is only logged.
pub mod Lifecycle
pub mod Teardown
mod Examples
use openplay.Prelude.{
  Text, List, ℕ, Option, Result, Bool, none, some, ok, err, [], ◌∷◌, ◌++◌, codes, any,
  if◌then◌else◌, true, false, take, text_eq, ◌||◌,
}
use openplay.Prelude.Strings.{decimal}
use openplay.Miracast.Rtsp.Connection.{RtspConnection, MiracastError, connection_failed}
use openplay.Miracast.Rtsp.Negotiate.{WfdNegotiationResult, negotiate}
use openplay.Miracast.Rtsp.Serve.{
  Round, ended, goes_on, serve_control_channel_every, keepalive_interval,
}
use openplay.Miracast.WfdParams.{default_formats}

pub data SessionEvent : Type 0 where
  ready : WfdNegotiationResult → SessionEvent
  session_ended : Option MiracastError → SessionEvent

-- How a session stands: it returned, or the loop of the control connection goes on.
pub data Outcome : Type 0 where
  returned : Result (Unit {0}) MiracastError → Outcome
  serving : Outcome

unfoldable pub after_serve : WfdNegotiationResult → Round → List SessionEvent × Outcome
after_serve r (ended (ok _)) = (ready r ∷ session_ended none ∷ [], returned (ok tt))
after_serve r (ended (err e)) = (ready r ∷ [], returned (err e))
after_serve r (goes_on unanswered) = (ready r ∷ [], serving)

unfoldable pub after_negotiate :
    (rounds : ℕ)
    → RtspConnection × Result WfdNegotiationResult MiracastError
    → List SessionEvent × Outcome
unfolding after_serve
after_negotiate rounds (c, err e) = ([], returned (err e))
after_negotiate rounds (c, ok r) =
    after_serve r (serve_control_channel_every rounds keepalive_interval 0 c).1

-- What both kinds of session do with a connection, with the first rounds of its loop.
unfoldable pub cast_on :
    (rounds : ℕ) (sink_addr : Text) → RtspConnection → List SessionEvent × Outcome
unfolding after_negotiate
cast_on rounds sink_addr c = after_negotiate rounds (negotiate sink_addr default_formats c)

-- How `connect` ends, with its timer.
pub data Dial : Type 0 where
  no_answer : Dial
  refused : Text → Dial
  connected : RtspConnection → Dial

unfoldable pub run_session : (rounds : ℕ) (sink_addr : Text) → Dial → List SessionEvent × Outcome
unfolding cast_on
run_session rounds sink_addr no_answer = (
  [],
  returned
      (err (connection_failed (codes "No answer from " ++ (sink_addr ++ codes " within 10s")))),
)
run_session rounds sink_addr (refused e) = (
  [],
  returned
      (err (connection_failed (codes "Failed to connect to " ++ (sink_addr ++ (codes ": " ++ e))))),
)
run_session rounds sink_addr (connected c) = cast_on rounds sink_addr c

unfoldable pub is_session_ended : SessionEvent → Bool
is_session_ended (ready r) = false
is_session_ended (session_ended e) = true

-- The events of the task that `start` spawns. A shutdown is heard while the session waits, with some
-- of its events sent; the session is over once it has sent its end.
unfoldable pub session_events :
    (shutdown : Option ℕ) → List SessionEvent × Outcome → List SessionEvent
unfolding is_session_ended
session_events none (events, returned (err e)) = events ++ (session_ended (some e) ∷ [])
session_events none (events, returned (ok _)) = events
session_events none (events, serving) = events
session_events (some sent) (events, outcome) =
    if any is_session_ended (take sent events)
    then take sent events
    else take sent events ++ (session_ended none ∷ [])

pub record WifiDirectPeer : Type 0 where
  pub name : Text
  pub device_address : Text
  pub object_path : Text
  pub wfd_supported : Bool
  pub wfd_device_info : Option ℕ
  pub device_type : Option Text

pub record P2PGroupInfo : Type 0 where
  pub interface_name : Text
  pub local_ip : Text
  pub peer_ip : Text
  pub peer_device_address : Text

pub data WifiDirectEvent : Type 0 where
  peer_found : WifiDirectPeer → WifiDirectEvent
  peer_lost : (device_address : Text) → WifiDirectEvent
  group_formed : P2PGroupInfo → WifiDirectEvent
  group_removed : WifiDirectEvent
  discovery_error : Text → WifiDirectEvent

-- A round of the wait for the group: an event, the end of the channel, or five seconds of nothing.
pub data Wait : Type 0 where
  heard : WifiDirectEvent → Wait
  channel_closed quiet : Wait

pub data GroupWait : Type 0 where
  formed : P2PGroupInfo → GroupWait
  unformed : (disconnected : Bool) → MiracastError → GroupWait

-- The rounds of the sixty seconds.
unfoldable pub await_group : List Wait → GroupWait
await_group [] =
    unformed false (connection_failed (codes "Timeout (60s) waiting for P2P group formation"))
await_group (heard (group_formed info) ∷ ws) = formed info
await_group (heard (discovery_error e) ∷ ws) =
    unformed true (connection_failed (codes "P2P group formation failed: " ++ e))
await_group (heard group_removed ∷ ws) =
    unformed false (connection_failed (codes "P2P group removed before session started"))
await_group (heard (peer_found peer) ∷ ws) = await_group ws
await_group (heard (peer_lost device_address) ∷ ws) = await_group ws
await_group (channel_closed ∷ ws) =
    unformed false (connection_failed (codes "P2P event channel closed"))
await_group (quiet ∷ ws) = await_group ws

-- How the wait for the sink's connection ends; after its thirty seconds the sink is dialled.
pub data Arrived : Type 0 where
  accepted : (ip : Text) → RtspConnection → Arrived
  accept_failed : Text → Arrived
  fallback : Result RtspConnection Text → Arrived

-- What the system answers.
pub record Answers : Type 0 where
  pub manager : Result (Unit {0}) Text
  pub connect : Result (Unit {0}) Text
  pub waits : List Wait
  pub resolved : Result Text Text
  pub bound : Result (Unit {0}) Text
  pub arrived : Arrived

pub data ManagerCall : Type 0 where
  connect_to : (peer_address : Text) → ManagerCall
  disconnect : ManagerCall

unfoldable pub is_unspecified : (ip : Text) → Bool
is_unspecified ip = text_eq ip (codes "0.0.0.0") || text_eq ip (codes "::")

unfoldable pub peer_ip_of : Answers → P2PGroupInfo → Result Text Text
unfolding is_unspecified
peer_ip_of a group = if is_unspecified group.peer_ip then a.resolved else ok group.peer_ip

-- The guard disconnects when the session returns.
unfoldable pub guarded :
    List SessionEvent × Outcome → List ManagerCall × List SessionEvent × Outcome
guarded (events, returned r) = (disconnect ∷ [], events, returned r)
guarded (events, serving) = ([], events, serving)

module _ (socket_addr : (ip : Text) → (port : ℕ) → Text) (rounds : ℕ) (rtsp_port : ℕ) where
  unfoldable pub on_arrival : (peer_ip : Text) → Arrived → List SessionEvent × Outcome
  unfolding cast_on
  on_arrival peer_ip (accepted ip c) = cast_on rounds (socket_addr ip rtsp_port) c
  on_arrival peer_ip (accept_failed e) =
      ([], returned (err (connection_failed (codes "Accept failed: " ++ e))))
  on_arrival peer_ip (fallback (ok c)) = cast_on rounds (socket_addr peer_ip rtsp_port) c
  on_arrival peer_ip (fallback (err e)) = (
    [],
    returned
        (err (connection_failed (codes "Both listen and connect failed. Connect error: " ++ e))),
  )

  unfoldable pub listen : Answers → (peer_ip : Result Text Text) → List SessionEvent × Outcome
  unfolding on_arrival
  listen a (err e) =
      ([], returned (err (connection_failed (codes "Failed to resolve peer IP: " ++ e))))
  listen a (ok peer_ip) = elim a.bound [
    | ok u ↦ on_arrival peer_ip a.arrived
    | err e ↦ (
      [],
      returned (
          err (
            connection_failed (
              codes "RTSP listen on 0.0.0.0:" ++ (decimal rtsp_port ++ (codes " failed: " ++ e))))),
    )
  ]

  unfoldable pub with_group : Answers → GroupWait → List ManagerCall × List SessionEvent × Outcome
  unfolding guarded listen peer_ip_of
  with_group a (formed group) = guarded (listen a (peer_ip_of a group))
  with_group a (unformed true e) = (disconnect ∷ [], [], returned (err e))
  with_group a (unformed false e) = ([], [], returned (err e))

  unfoldable pub after_connect :
      (peer_address : Text)
      → Answers
      → Result (Unit {0}) Text
      → List ManagerCall × List SessionEvent × Outcome
  unfolding with_group await_group
  after_connect peer_address a (ok u) =
      let (calls, events, outcome) = with_group a (await_group a.waits) in
      (connect_to peer_address ∷ calls, events, outcome)
  after_connect peer_address a (err e) = (
    connect_to peer_address ∷ [],
    [],
    returned (err (connection_failed (codes "P2P Connect failed: " ++ e))),
  )

  unfoldable pub after_start :
      (peer_address : Text)
      → Answers
      → Result (Unit {0}) Text
      → List ManagerCall × List SessionEvent × Outcome
  unfolding after_connect
  after_start peer_address a (ok u) = after_connect peer_address a a.connect
  after_start peer_address a (err e) =
      ([], [], returned (err (connection_failed (codes "Failed to start P2P manager: " ++ e))))

  unfoldable pub run_wifi_direct_session :
      (peer_address : Text) → Answers → List ManagerCall × List SessionEvent × Outcome
  unfolding after_start
  run_wifi_direct_session peer_address a = after_start peer_address a a.manager
