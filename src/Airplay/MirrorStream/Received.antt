-- ===== src/Airplay/MirrorStream/Received.antt =====
-- What a receiver reads of the mirror stream (crates/openplay-airplay/src/mirror_stream.rs).
use openplay.Prelude.{zero, suc, some, false, if◌then◌else◌}
use openplay.Prelude.{none, true, refl}
use openplay.Prelude.{
  ok, [], List, ℕ, ◌≡◌, ◌∷◌, ◌++◌, ap, ◌∙◌, length, All, sym, Option, Bool, ◌<◌, ◌==◌, ltb, drop,
  take, ◌^◌, arith, length-append, take-append_left, drop-append_left,
}
use openplay.Airplay.MirrorStream.{
  write_packet, packet_header, Session, SessionEvent, command, tick, codec, frame, stop,
  run_session, session_event, send_codec_data, send_video_frame, send_heartbeat, write_payload,
  flush, then_write, after_command, after_heartbeat, handle_command, unless_ended,
}
use mathlib.Core.List.{append-nil, append_assoc}
use openplay.Airplay.MirrorHeader.{
  MirrorHeader, PacketType, video, codec_data, heartbeat, encode, decode, header_size,
}
use openplay.Airplay.MirrorHeader.RoundTrip.{decode-encode_header}

pub record Packet : Type 0 where
  pub packet_type : PacketType
  pub now : ℕ
  pub payload : List ℕ

abbrev pub packet_bytes : Packet → List ℕ
packet_bytes p = encode (packet_header p.packet_type p.now p.payload) ++ p.payload

abbrev pub stream_bytes : List Packet → List ℕ
stream_bytes [] = []
stream_bytes (p ∷ ps) = packet_bytes p ++ stream_bytes ps

write_payload-bytes :
    (payload written : List ℕ)
    → write_payload payload (record { written = written; outcomes = [] })
      ≡ (record { written = written ++ payload; outcomes = [] }, ok tt)
unfolding write_payload flush then_write
write_payload-bytes [] written = refl
write_payload-bytes (b ∷ bs) written =
    ap (λ w. (record { written = w; outcomes = [] }, ok tt)) (append-nil (written ++ (b ∷ bs)))

-- While no write fails, a packet leaves as its header and its payload.
write_packet-bytes :
    (p : Packet) (written : List ℕ)
    → write_packet
        (packet_header p.packet_type p.now p.payload)
        p.payload
        (record { written = written; outcomes = [] })
      ≡ (record { written = written ++ packet_bytes p; outcomes = [] }, ok tt)
unfolding write_packet then_write
write_packet-bytes p written =
    write_payload-bytes p.payload (written ++ encode (packet_header p.packet_type p.now p.payload))
    ∙ ap (λ w. (record { written = w; outcomes = [] }, ok tt)) (append_assoc written _ p.payload)

-- The packets of the events of a session that goes on.
abbrev pub packet_of : ℕ → SessionEvent → List Packet
packet_of now (command (codec bytes)) =
    record { packet_type = codec_data; now = now; payload = bytes } ∷ []
packet_of now (command (frame bytes)) =
    record { packet_type = video; now = now; payload = bytes } ∷ []
packet_of now (command stop) = []
packet_of now tick = record { packet_type = heartbeat; now = now; payload = [] } ∷ []

abbrev pub packets : List (ℕ × SessionEvent) → List Packet
packets [] = []
packets ((now, e) ∷ events) = packet_of now e ++ packets events

-- No stop among the events.
abbrev pub IsGoingOn : ℕ × SessionEvent → Type 0
IsGoingOn (now, command stop) = ⊥
IsGoingOn (now, command (codec bytes)) = Unit {0}
IsGoingOn (now, command (frame bytes)) = Unit {0}
IsGoingOn (now, tick) = Unit {0}

abbrev pub live : List ℕ → Session
live written = record {
  stream = record { written = written; outcomes = [] };
  beating = true;
  ended = none;
}

only :
    (written : List ℕ) (p : Packet)
    → live (written ++ packet_bytes p) ≡ live (written ++ stream_bytes (p ∷ []))
only written p = ap (λ b. live (written ++ b)) (sym (append-nil (packet_bytes p)))

session_event-live :
    (now : ℕ) (e : SessionEvent) (written : List ℕ)
    → IsGoingOn (now, e)
    → session_event now e (live written) ≡ live (written ++ stream_bytes (packet_of now e))
unfolding session_event handle_command unless_ended after_command after_heartbeat send_codec_data
    send_video_frame send_heartbeat
session_event-live now (command (codec bytes)) written h =
    let p : Packet = record { packet_type = codec_data; now = now; payload = bytes } in
    ap (after_command (live written)) (write_packet-bytes p written) ∙ only written p
session_event-live now (command (frame bytes)) written h =
    let p : Packet = record { packet_type = video; now = now; payload = bytes } in
    ap (after_command (live written)) (write_packet-bytes p written) ∙ only written p
session_event-live now (command stop) written h = elim h [ ]
session_event-live now tick written h =
    let p : Packet = record { packet_type = heartbeat; now = now; payload = [] } in
    ap (after_heartbeat (live written)) (write_packet-bytes p written) ∙ only written p

stream_bytes-append :
    (ps qs : List Packet) → stream_bytes (ps ++ qs) ≡ stream_bytes ps ++ stream_bytes qs
stream_bytes-append [] qs = refl
stream_bytes-append (p ∷ ps) qs =
    ap (λ b. packet_bytes p ++ b) (stream_bytes-append ps qs)
    ∙ sym (append_assoc (packet_bytes p) (stream_bytes ps) (stream_bytes qs))

run_session-live :
    (events : List (ℕ × SessionEvent)) (written : List ℕ)
    → All IsGoingOn events
    → run_session events (live written) ≡ live (written ++ stream_bytes (packets events))
unfolding run_session
run_session-live [] written h = ap live (sym (append-nil written))
run_session-live ((now, e) ∷ events) written h =
    ap (run_session events) (session_event-live now e written h.0)
    ∙ run_session-live events (written ++ stream_bytes (packet_of now e)) h.1
    ∙ ap live (
        append_assoc written (stream_bytes (packet_of now e)) (stream_bytes (packets events))
        ∙ ap (λ b. written ++ b) (sym (stream_bytes-append (packet_of now e) (packets events))))

cons_packet : Packet → Option (List Packet) → Option (List Packet)
cons_packet p none = none
cons_packet p (some ps) = some (p ∷ ps)

-- One packet of a receiver's reading, from the header and the bytes behind it.
read_head :
    (over : Bool)
    → Option MirrorHeader
    → (rest : List ℕ) (later : List ℕ → Option (List Packet)) → Option (List Packet)
unfolding cons_packet
read_head true h rest later = some []
read_head false none rest later = none
read_head false (some h) rest later =
    if ltb (length rest) h.payload_size
    then none
    else cons_packet
        (record {
          packet_type = h.packet_type;
          now = h.ntp_timestamp;
          payload = take h.payload_size rest;
        })
        (later (drop h.payload_size rest))

-- A receiver that reads packet by packet, by the header's size field.
pub read_packets : (fuel : ℕ) → List ℕ → Option (List Packet)
unfolding read_head
read_packets zero bytes = none
read_packets (suc fuel) bytes =
    read_head (length bytes == 0) (decode bytes) (drop header_size bytes) (read_packets fuel)

abbrev pub IsFitting : Packet → Type 0
IsFitting p = (length p.payload < 2 ^ 32) × (p.now < 2 ^ 64)

-- The header with the size that the payload really has.
abbrev whole_header : Packet → MirrorHeader
whole_header p = record {
  payload_size = length p.payload;
  packet_type = p.packet_type;
  ntp_timestamp = p.now;
}

read_head-whole :
    (p : Packet) (rest : List ℕ) (later : List ℕ → Option (List Packet))
    → read_head false (some (whole_header p)) (p.payload ++ rest) later ≡ cons_packet p (later rest)
unfolding read_head
read_head-whole p rest later = rw enough (λ i.
    cons_packet (record p { payload = take-append_left p.payload rest i })
      (later (drop-append_left p.payload rest i)))
  where
    enough : ltb (length (p.payload ++ rest)) (length p.payload) ≡ false
    enough = ground (arith, length-append p.payload rest)

read_head-packet :
    (p : Packet) (rest : List ℕ) (later : List ℕ → Option (List Packet))
    → IsFitting p
    → read_head
        (length (packet_bytes p ++ rest) == 0)
        (decode (packet_bytes p ++ rest))
        (drop header_size (packet_bytes p ++ rest))
        later
      ≡ cons_packet p (later rest)
unfolding packet_header
read_head-packet p rest later fits =
    ap (λ b. read_head (length b == 0) (decode b) (drop header_size b) later)
      (append_assoc (encode h) p.payload rest)
    ∙ (λ i. read_head (some_bytes i) (read_back.1 i) (dropped i) later)
    ∙ ap (λ n. read_head false (some (record h { payload_size = n })) (p.payload ++ rest) later)
        (omega (arith, fits.0))
    ∙ read_head-whole p rest later
  where
    h : MirrorHeader
    h = packet_header p.packet_type p.now p.payload

    read_back :
        (length (encode h) ≡ header_size) × (decode (encode h ++ (p.payload ++ rest)) ≡ some h)
    read_back = decode-encode_header h (p.payload ++ rest) (omega arith) fits.1

    some_bytes : (length (encode h ++ (p.payload ++ rest)) == 0) ≡ false
    some_bytes = ground (arith, length-append (encode h) (p.payload ++ rest), read_back)

    dropped : drop header_size (encode h ++ (p.payload ++ rest)) ≡ p.payload ++ rest
    dropped =
        ap (λ n. drop n (encode h ++ (p.payload ++ rest))) (sym read_back.0)
        ∙ drop-append_left (encode h) (p.payload ++ rest)

read_packets-stream_bytes :
    (ps : List Packet)
    → All IsFitting ps
    → read_packets (suc (length ps)) (stream_bytes ps) ≡ some ps
unfolding read_packets read_head
read_packets-stream_bytes [] h = refl
read_packets-stream_bytes (p ∷ ps) h =
    read_head-packet p (stream_bytes ps) (read_packets (suc (length ps))) h.0
    ∙ ap (cons_packet p) (read_packets-stream_bytes ps h.1)

-- While no write fails and nobody stops the session, a receiver that reads packet by packet gets
-- what was sent: for each command its codec data or its frame, for each tick a heartbeat, in order,
-- with its time, if the payloads are shorter than 2^32 bytes and the times fit 64 bits.
pub run_session-received :
    (events : List (ℕ × SessionEvent))
    → All IsGoingOn events
    → All IsFitting (packets events)
    → read_packets (suc (length (packets events))) (run_session events (live [])).stream.written
      ≡ some (packets events)
run_session-received events going fits =
    ap (λ (s : Session). read_packets (suc (length (packets events))) s.stream.written)
      (run_session-live events [] going)
    ∙ read_packets-stream_bytes (packets events) fits
