-- ===== src/Signaling/Server/Examples.antt =====
-- Runs of the server, and its theorems at concrete inputs.
use openplay.Prelude.{if◌then◌else◌}
use openplay.Protocol.Validate.{validate, check_name}
use openplay.Prelude.{none, some, refl, [], arith, ◌∷◌, List, Text, Option, ◌≡◌, ◌==◌}
use openplay.Signaling.Server.{
  SignalingServer, ServerEvent, start, server_step, accepted, on_connection, tls_accepted, upgraded,
  text, accept, serve_connection, set_phase, end_connection, deliver,
}
use openplay.Signaling.Server.Admission.{IsSound, server_step-IsSound}
use openplay.Protocol.Message.{SignalingMessage, ping, session_request, default_capabilities}
use openplay.Prelude.Maps.{lookup, insert}

-- A reader that knows two texts: the second message has no name.
abbrev reader : Text → Option SignalingMessage
reader (c ∷ []) =
    if c == 1
    then some (ping 5)
    else if c == 2
    then some (session_request [] [] 1 default_capabilities)
    else none
reader _ = none

abbrev run : SignalingServer → List ServerEvent → SignalingServer
run s [] = s
run s (e ∷ es) = run (server_step reader s e) es

abbrev opened : SignalingServer
opened = run start (
    accepted 100
    ∷ accepted 200
    ∷ on_connection 1 tls_accepted
    ∷ on_connection 1 upgraded
    ∷ on_connection 1 (text (1 ∷ []))
    ∷ on_connection 1 (text (2 ∷ []))
    ∷ on_connection 2 (text (1 ∷ []))
    ∷ [])

-- One message came through: the other two were invalid, and sent before the upgrade.
opened-incoming :
    opened.incoming
    ≡ record { message = ping 5; reply = record { id = 1 }; connection = 1; peer = 100 } ∷ []
unfolding server_step serve_connection accept set_phase deliver end_connection validate check_name
    lookup insert
opened-incoming = refl

abbrev fresh_server : SignalingServer
fresh_server = start

server_step-IsSound_example : IsSound (server_step reader fresh_server (accepted 100))
server_step-IsSound_example =
    server_step-IsSound reader fresh_server (accepted 100) (omega arith)
      (record { limit = omega arith; fresh = tt; distinct = tt; delivered = tt })
