-- ===== src/Lib.antt =====
-- OpenPlay casts the screen of one computer to another: a sender finds receivers on the local
-- network, asks one for a session over a signaling connection, and streams video to it. Three
-- transports exist: OpenPlay's own (WebSocket signaling and WebRTC), AirPlay and Miracast.
--
-- How the parts interact. A signaling server (crates/openplay-signaling) accepts connections, reads
-- JSON messages, drops those that `SignalingMessage::validate` refuses (crates/openplay-protocol)
-- and passes the others to the session loop of the receiver (crates/openplay-receiver). That loop
-- also hears the clicks of the user, the events of the WebRTC peer and a timer, and it decides who
-- may cast. A Miracast sink is driven by the sender over an RTSP control connection
-- (crates/openplay-miracast). An AirPlay receiver (crates/openplay-airplay) is paired with by TLV8
-- items over HTTP: SRP proves that both sides know the PIN, signatures prove who they are, and what
-- follows on a connection is sealed in the frames of the control channel.
--
-- Which file models which part:
--   Protocol/Message, Protocol/Validate: crates/openplay-protocol/src/message.rs, one constructor
--     per message, one function per check.
--   Protocol/StateMachine, with Sender and Receiver: crates/openplay-protocol/src/state.rs.
--   Signaling, Signaling/Server: crates/openplay-signaling/src/server.rs. `run` and
--     `serve_connection` are the steps of one state, with the permits as the length of `live`.
--   Receiver/Loop: crates/openplay-receiver/src/net.rs. A method of `SessionLoop` is a function of
--     the same name from the state to the new state and the calls it makes, in order; `step` is one
--     round of the select loop.
--   Miracast/WfdParams: crates/openplay-miracast/src/wfd_params.rs.
--   Miracast/Rtsp, with Message, Connection, Negotiate and Serve:
--     crates/openplay-miracast/src/rtsp_server.rs, over a script of what the socket does.
--   Miracast/Session: crates/openplay-miracast/src/session.rs, over the answers of the system and the
--     manager of wifi_direct.rs.
--   Discovery/Address: crates/openplay-discovery/src/address.rs.
--   Airplay/Tlv8: crates/openplay-airplay/src/tlv8.rs.
--   Airplay/Srp: crates/openplay-airplay/src/srp.rs; Srp/Server is the `RefServer` of its tests, the
--     independent description that the client is compared with.
--   Airplay/Pairing, with Http, Items, Setup and Verify: crates/openplay-airplay/src/hap_pairing.rs. A
--     method is a function from the stream to the stream and its answer, in `do` notation.
--   Airplay/ControlChannel: crates/openplay-airplay/src/control_channel.rs.
--   Airplay/MirrorHeader, Airplay/Ntp: mirror_header.rs and ntp.rs in crates/openplay-airplay/src.
--   Sender/Connect, Sender/Request, Sender/Session: crates/openplay-sender/src/casting.rs, the search for
--     the address, the request and what follows it in `run_openplay_pipeline`, over scripts of the
--     rounds of its two loops.
--   Sender/Nalu, Sender/Mirror: the same file's functions on NAL units and the loop of an AirPlay cast.
--   Sender/App, Sender/Dialogs, Sender/Receivers: app.rs and receiver_list.rs in crates/openplay-sender/src. `app_step` is what
--     `poll_discovery`, `poll_status` and the clicks of `update` do to the state of the window.
--   Signaling/Client: crates/openplay-signaling/src/client.rs, the task that reads.
--   Config: crates/openplay-common/src/config.rs and the overrides in crates/openplay-receiver/src/main.rs.
--   Crypto: the fingerprints of crates/openplay-crypto (src/lib.rs and src/tls.rs).
--   Airplay/MirrorStream: mirror_stream.rs and the loop of session.rs in crates/openplay-airplay/src.
--   Airplay/HttpSession: http_session.rs there, and what session.rs makes of a status.
--   Discovery/Record: record.rs and airplay_record.rs in crates/openplay-discovery/src.
--   Airplay/Stream: the socket that Pairing and ControlChannel use, as a script.
--   Prelude: what the parts share: tests, lists, maps, texts, results, bits, UTF-8, strings.
-- Each part has its theorems in child modules named for what they prove, and its test runs in
-- a module Examples.
--
-- Conventions. Numbers are native; a machine integer that can wrap is reduced modulo its size where
-- the code adds to it. A text is the list of its code points, bytes are numbers, a `HashMap` is an
-- association list. Fallible code returns a Result or an Option with the source's errors.
--
-- External code. SHA-256, SHA-512, HKDF, ChaCha20-Poly1305, Ed25519, X25519 and the functions of num-bigint are
-- fields of records (Srp.Primitives, Pairing.Crypto, ControlChannel.Aead) that the definitions take
-- as arguments; Srp.IsLawful and ControlChannel.IsAead are what their documentation promises. The
-- modules Toy and Examples meet them with concrete functions. What the code draws at random is an
-- argument.
--
-- Bounds and fuel. The TLV8 decoder runs on fuel, the length of its input; each round takes two
-- bytes. Printing a decimal number takes the number itself as fuel, and each digit divides it by
-- ten. Reading from the RTSP connection recurses on the script; a script that is over means a silent
-- sink. The control loop is modelled by its first rounds, for any number of them. The reads of a
-- pairing recurse on the script of the peer's turn. The loop of a request on the control channel
-- runs on the bytes that come as fuel, of which each frame takes two at least.
--
-- What is not modelled: GStreamer, TLS, WebSocket, mDNS, D-Bus and the timers, whose answers are
-- inputs; JSON, whose reader is a parameter of the signaling server and of its client; logs; the drawing
-- of the user interfaces. The
-- SQLite store of paired devices, FairPlay, what an AirPlay receiver says of itself in
-- /info, and the sender's pipeline for Miracast are outside the model.
pub mod Prelude
pub mod Protocol
pub mod Signaling
pub mod Receiver
pub mod Airplay
pub mod Miracast
pub mod Discovery
pub mod Config
pub mod Crypto
pub mod Sender
