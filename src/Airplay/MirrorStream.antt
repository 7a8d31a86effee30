-- ===== src/Airplay/MirrorStream.antt =====
-- crates/openplay-airplay/src/mirror_stream.rs, and the loop of crates/openplay-airplay/src/session.rs
-- that feeds it. The socket is a script of the outcomes of its writes and flushes; a script that is
-- over lets them succeed.
pub mod Received
mod Examples
use openplay.Prelude.{
  none, some, ok, err, true, false, [], if◌then◌else◌, List, Bool, Option, ℕ, Result, ◌∷◌, length,
  ◌++◌, ◌%◌, ◌^◌,
}
use openplay.Airplay.MirrorHeader.{MirrorHeader, PacketType, video, codec_data, heartbeat, encode}

pub record MirrorStream : Type 0 where
  pub written : List ℕ
  pub outcomes : List Bool

pub data StreamError : Type 0 where
  header_failed payload_failed flush_failed : StreamError

abbrev pub Sent : Type 0
Sent = MirrorStream × Result (Unit {0}) StreamError

-- One call of the socket: on success the bytes are out, and the rest goes on.
unfoldable pub then_write :
    List ℕ
    → StreamError
    → (next : MirrorStream → Sent) → (written : List ℕ) (outcomes : List Bool) → Sent
then_write bytes e next written [] = next (record { written = written ++ bytes; outcomes = [] })
then_write bytes e next written (true ∷ outcomes) =
    next (record { written = written ++ bytes; outcomes = outcomes })
then_write bytes e next written (false ∷ outcomes) =
    (record { written = written; outcomes = outcomes }, err e)

abbrev write : List ℕ → StreamError → (next : MirrorStream → Sent) → MirrorStream → Sent
write bytes e next s = then_write bytes e next s.written s.outcomes

unfoldable pub flush : MirrorStream → Sent
unfolding then_write
flush s = write [] flush_failed (λ t. (t, ok tt)) s

-- An empty payload is not written.
unfoldable pub write_payload : List ℕ → MirrorStream → Sent
unfolding flush
write_payload [] s = flush s
write_payload (b ∷ bs) s = write (b ∷ bs) payload_failed flush s

unfoldable pub write_packet : MirrorHeader → (payload : List ℕ) → MirrorStream → Sent
unfolding write_payload
write_packet header payload s = write (encode header) header_failed (write_payload payload) s

-- `payload.len() as u32`.
unfoldable pub packet_header : PacketType → (now : ℕ) (payload : List ℕ) → MirrorHeader
packet_header packet_type now payload = record {
  payload_size = length payload % 2 ^ 32;
  packet_type = packet_type;
  ntp_timestamp = now;
}

unfoldable pub send_codec_data : (now : ℕ) (sps_pps : List ℕ) → MirrorStream → Sent
unfolding write_packet packet_header
send_codec_data now sps_pps s = write_packet (packet_header codec_data now sps_pps) sps_pps s

unfoldable pub send_video_frame : (now : ℕ) (nalu_data : List ℕ) → MirrorStream → Sent
unfolding write_packet packet_header
send_video_frame now nalu_data s = write_packet (packet_header video now nalu_data) nalu_data s

unfoldable pub send_heartbeat : (now : ℕ) → MirrorStream → Sent
unfolding write_packet packet_header
send_heartbeat now s = write_packet (packet_header heartbeat now []) [] s

pub data SessionCommand : Type 0 where
  codec : List ℕ → SessionCommand
  frame : List ℕ → SessionCommand
  stop : SessionCommand

-- What the session's tasks do next: a command is received, or the ticker of the heartbeats fires. A
-- command channel that is closed ends the session as `stop` does.
pub data SessionEvent : Type 0 where
  command : SessionCommand → SessionEvent
  tick : SessionEvent

-- The stream, whether the heartbeat task still runs, and how the session ended, if it has.
pub record Session : Type 0 where
  pub stream : MirrorStream
  pub beating : Bool
  pub ended : Option (Result (Unit {0}) StreamError)

-- A failed command ends the session by `?`: the heartbeat task is not aborted.
unfoldable pub after_command : Session → Sent → Session
after_command s (stream, ok u) = record s { stream = stream }
after_command s (stream, err e) = record s { stream = stream; ended = some (err e) }

-- A failed heartbeat ends the heartbeats only.
unfoldable pub after_heartbeat : Session → Sent → Session
after_heartbeat s (stream, ok u) = record s { stream = stream }
after_heartbeat s (stream, err e) = record s { stream = stream; beating = false }

unfoldable pub handle_command : (now : ℕ) → SessionCommand → Session → Session
unfolding after_command send_codec_data send_video_frame
handle_command now (codec bytes) s = after_command s (send_codec_data now bytes s.stream)
handle_command now (frame bytes) s = after_command s (send_video_frame now bytes s.stream)
handle_command now stop s = record s { beating = false; ended = some (ok tt) }

-- A command is only received while the session lasts.
unfoldable pub unless_ended : Option (Result (Unit {0}) StreamError) → (next s : Session) → Session
unless_ended none next s = next
unless_ended (some r) next s = s

unfoldable pub session_event : (now : ℕ) → SessionEvent → Session → Session
unfolding handle_command after_heartbeat send_heartbeat unless_ended
session_event now (command c) s = unless_ended s.ended (handle_command now c s) s
session_event now tick s = if s.beating then after_heartbeat s (send_heartbeat now s.stream) else s

unfoldable pub run_session : List (ℕ × SessionEvent) → Session → Session
unfolding session_event
run_session [] s = s
run_session ((now, e) ∷ events) s = run_session events (session_event now e s)
