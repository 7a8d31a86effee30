-- ===== src/Signaling/Server.antt =====
-- crates/openplay-signaling/src/server.rs: the accept loop and the task of each connection, as
-- steps on the server's state. The JSON reader (serde_json) is the parameter `from_str`; what the
-- sockets, TLS, the WebSocket layer and the timers do arrives as events.
pub mod Admission
mod Examples
use openplay.Signaling.{IncomingMessage}
use openplay.Protocol.Validate.{validate}
use openplay.Prelude.Maps.{lookup, insert, remove}
use openplay.Prelude.Maps.{insert, remove}
use openplay.Protocol.Message.{SignalingMessage}
use openplay.Prelude.{
  none, some, ok, err, true, false, [], if◌then◌else◌, ℕ, Text, Option, not, List, leb, Bool,
  length, ◌++◌, ◌∷◌, ◌+◌, ◌%◌, ◌^◌,
}

-- How far a connection's task has come.
pub data Phase : Type 0 where
  handshaking upgrading established : Phase

pub record Connection : Type 0 where
  pub peer : ℕ
  pub phase : Phase

-- `live` are the tasks that hold a permit, `incoming` what the channel has taken, in order, and
-- `listening` says that the receiving half of the channel is there.
pub record SignalingServer : Type 0 where
  pub next_id : ℕ
  pub live : List (ℕ × Connection)
  pub incoming : List IncomingMessage
  pub listening : Bool

abbrev pub max_connections : ℕ
max_connections = 16

-- The start of `run`.
abbrev pub start : SignalingServer
start = record { next_id = 1; live = []; incoming = []; listening = true }

-- What happens to one connection: the outcome of TLS, of the upgrade, and what the next read gives.
pub data ConnectionEvent : Type 0 where
  tls_accepted tls_failed tls_timed_out upgraded upgrade_failed upgrade_timed_out : ConnectionEvent
  text : Text → ConnectionEvent
  close other_frame web_socket_error stream_ended idle : ConnectionEvent

pub data ServerEvent : Type 0 where
  accepted : (peer : ℕ) → ServerEvent
  accept_failed channel_closed : ServerEvent
  on_connection : (id : ℕ) → ConnectionEvent → ServerEvent

-- One round of the accept loop on a connection. The counter is a u64 and wraps. Once the channel is
-- closed, a connection that is taken in the same moment is counted as refused.
unfoldable pub accept : SignalingServer → ℕ → SignalingServer
accept s peer =
    if not s.listening then s else if leb max_connections (length s.live) then s else record s {
      next_id = (s.next_id + 1) % 2 ^ 64;
      live = (s.next_id, record { peer = peer; phase = handshaking }) ∷ s.live;
    }

-- The task ends and gives its permit back.
unfoldable pub end_connection : SignalingServer → ℕ → SignalingServer
end_connection s id = record s { live = remove id s.live }

unfoldable pub set_phase : SignalingServer → ℕ → Connection → Phase → SignalingServer
set_phase s id c phase = record s { live = insert id (record c { phase = phase }) s.live }

-- A message that was read: what `validate` refuses is dropped, and a channel that is closed ends
-- the connection.
unfoldable pub deliver : SignalingServer → ℕ → Connection → SignalingMessage → SignalingServer
unfolding end_connection
deliver s id c message = elim (validate message) [
  | err _ ↦ s
  | ok _ ↦
      if s.listening
      then record s {
        incoming =
            s.incoming
            ++ (record {
              message = message;
              reply = record { id = id };
              connection = id;
              peer = c.peer;
            }
                ∷ []);
      }
      else end_connection s id
]

module _ (from_str : Text → Option SignalingMessage) where
  -- The task of a connection, at the event it waits for; it waits for no other.
  unfoldable pub serve_connection :
      SignalingServer → ℕ → Connection → Phase → ConnectionEvent → SignalingServer
  serve_connection s id c handshaking tls_accepted = set_phase s id c upgrading
  serve_connection s id c handshaking tls_failed = end_connection s id
  serve_connection s id c handshaking tls_timed_out = end_connection s id
  serve_connection s id c upgrading upgraded = set_phase s id c established
  serve_connection s id c upgrading upgrade_failed = end_connection s id
  serve_connection s id c upgrading upgrade_timed_out = end_connection s id
  serve_connection s id c established (text t) = elim (from_str t) [
    | none ↦ s
    | some message ↦ deliver s id c message
  ]
  serve_connection s id c established close = end_connection s id
  serve_connection s id c established other_frame = s
  serve_connection s id c established web_socket_error = end_connection s id
  serve_connection s id c established stream_ended = end_connection s id
  serve_connection s id c established idle = end_connection s id
  serve_connection s id c _ _ = s

  unfoldable pub server_step : SignalingServer → ServerEvent → SignalingServer
  unfolding serve_connection accept
  server_step s (accepted peer) = accept s peer
  server_step s accept_failed = s
  server_step s channel_closed = record s { listening = false }
  server_step s (on_connection id e) = elim (lookup id s.live) [
    | none ↦ s
    | some c ↦ serve_connection s id c c.phase e
  ]
