-- ===== src/Miracast/Session/Examples.antt =====
-- Runs of Miracast sessions, and their theorems at concrete inputs.
use openplay.Prelude.{some}
use openplay.Prelude.Strings.{decimal}
use openplay.Prelude.{none, ok, err, refl, [], codes, ◌∷◌, ◌⊎◌, Text, ℕ, ◌≡◌, ◌++◌, Option}
use openplay.Miracast.Rtsp.Connection.{new, chunk}
use openplay.Miracast.Session.{
  run_session, session_events, Answers, run_wifi_direct_session, heard, quiet, group_formed,
  accept_failed, P2PGroupInfo, Dial, connected, serving, connect_to,
}
use openplay.Miracast.Session.Lifecycle.{session_events-IsLifecycle, IsLifecycle}
use openplay.Miracast.Session.Teardown.{run_wifi_direct_session-IsTornDown, IsTornDown}

abbrev sink : Text
sink = codes "192.168.1.5:7236"

-- A connection whose peer closes it before it answers M1.
abbrev hung_up : Dial
hung_up = connected (new (chunk [] ∷ []) [])

session_events-IsLifecycle_example :
    IsLifecycle (session_events (some 0) (run_session 5 sink hung_up))
    ⊎ ((◌≡◌ {A = Option ℕ} (some 0) none) × ((run_session 5 sink hung_up).1 ≡ serving))
session_events-IsLifecycle_example = session_events-IsLifecycle 5 sink hung_up (some 0)

abbrev socket_addr : (ip : Text) → (port : ℕ) → Text
socket_addr ip port = ip ++ (codes ":" ++ decimal port)

abbrev answers : Answers
answers = record {
  manager = ok tt;
  connect = ok tt;
  waits = quiet ∷ quiet ∷ quiet ∷ [];
  resolved = err (codes "Timeout waiting for peer IP on p2p-wlan0-0");
  bound = ok tt;
  arrived = accept_failed (codes "closed");
}

-- Nothing is disconnected after the sixty seconds.
test_given_up :
    (run_wifi_direct_session socket_addr 5 7236 (codes "aa:bb:cc:dd:ee:ff") answers).0
    ≡ connect_to (codes "aa:bb:cc:dd:ee:ff") ∷ []
unfolding run_wifi_direct_session
test_given_up = refl

abbrev group : P2PGroupInfo
group = record {
  interface_name = codes "p2p-wlan0-0";
  local_ip = codes "192.168.49.2";
  peer_ip = codes "0.0.0.0";
  peer_device_address = codes "aa:bb:cc:dd:ee:ff";
}

run_wifi_direct_session-IsTornDown_example :
    IsTornDown (codes "aa:bb:cc:dd:ee:ff") (quiet ∷ heard (group_formed group) ∷ []) (
      run_wifi_direct_session socket_addr 5 7236
        (codes "aa:bb:cc:dd:ee:ff")
        (record answers { waits = quiet ∷ heard (group_formed group) ∷ [] }))
run_wifi_direct_session-IsTornDown_example =
    run_wifi_direct_session-IsTornDown socket_addr 5 7236 (codes "aa:bb:cc:dd:ee:ff")
      (record answers { waits = quiet ∷ heard (group_formed group) ∷ [] }) refl refl
