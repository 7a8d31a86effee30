-- ===== src/Miracast/Session/Teardown.antt =====
-- The Wi-Fi Direct group of a session is taken down (crates/openplay-miracast/src/session.rs).
use openplay.Miracast.Rtsp.Connection.{MiracastError, connection_failed}
use openplay.Prelude.{ok, err, []}
use openplay.Prelude.{Text, List, ℕ, ◌≡◌, ◌∷◌, Result, codes, ◌++◌}
use openplay.Miracast.Session.{
  quiet, peer_found, peer_lost, group_removed, channel_closed, heard, group_formed, discovery_error,
  Wait, SessionEvent, Outcome, returned, serving, run_wifi_direct_session, guarded, with_group,
  Answers, connect_to, disconnect, await_group, ManagerCall, P2PGroupInfo, after_connect,
  after_start, Wait, heard, group_formed, peer_found, discovery_error, peer_lost, group_removed,
  channel_closed,
}

-- A round of the wait that decides nothing.
abbrev pub IsUneventful : Wait → Type 0
IsUneventful quiet = Unit
IsUneventful (heard (peer_found peer)) = Unit
IsUneventful (heard (peer_lost device_address)) = Unit
IsUneventful _ = ⊥

abbrev Run : Type 0
Run = List ManagerCall × List SessionEvent × Outcome

abbrev fails : (calls : List ManagerCall) (reason : Text) → Run
fails calls reason = (calls, [], returned (err (connection_failed reason)))

-- Once connecting was asked for: the calls and the end, by the rounds of the wait for the group.
pub data IsTornDown (peer : Text) : List Wait → Run → Type 0 where
  passed :
      (w : Wait) (ws : List Wait) (run : Run)
      → IsUneventful w
      → IsTornDown peer ws run
      → IsTornDown peer (w ∷ ws) run
  over :
      (group : P2PGroupInfo) (ws : List Wait) (events : List SessionEvent)
      (r : Result (Unit {0}) MiracastError)
      → IsTornDown peer
          (heard (group_formed group) ∷ ws)
          (connect_to peer ∷ disconnect ∷ [], events, returned r)
  held :
      (group : P2PGroupInfo) (ws : List Wait) (events : List SessionEvent)
      → IsTornDown peer (heard (group_formed group) ∷ ws) (connect_to peer ∷ [], events, serving)
  reported :
      (e : Text) (ws : List Wait)
      → IsTornDown peer
          (heard (discovery_error e) ∷ ws)
          (fails (connect_to peer ∷ disconnect ∷ []) (codes "P2P group formation failed: " ++ e))
  removed :
      (ws : List Wait)
      → IsTornDown peer
          (heard group_removed ∷ ws)
          (fails (connect_to peer ∷ []) (codes "P2P group removed before session started"))
  hung_up :
      (ws : List Wait)
      → IsTornDown peer
          (channel_closed ∷ ws)
          (fails (connect_to peer ∷ []) (codes "P2P event channel closed"))
  timed_out :
      IsTornDown peer []
        (fails (connect_to peer ∷ []) (codes "Timeout (60s) waiting for P2P group formation"))

guarded-IsTornDown :
    (peer : Text) (group : P2PGroupInfo) (ws : List Wait) (run : List SessionEvent × Outcome)
    → IsTornDown peer
        (heard (group_formed group) ∷ ws)
        (connect_to peer ∷ (guarded run).0, (guarded run).1, (guarded run).2)
unfolding guarded
guarded-IsTornDown peer group ws (events, returned r) = over group ws events r
guarded-IsTornDown peer group ws (events, serving) = held group ws events

module _ (socket_addr : (ip : Text) → (port : ℕ) → Text) (rounds : ℕ) (rtsp_port : ℕ) where
  abbrev after_wait : (peer : Text) → Answers → List Wait → Run
  after_wait peer a ws =
      let r = with_group socket_addr rounds rtsp_port a (await_group ws) in
      (connect_to peer ∷ r.0, r.1, r.2)

  after_wait-IsTornDown :
      (peer : Text) (a : Answers) (ws : List Wait) → IsTornDown peer ws (after_wait peer a ws)
  unfolding with_group await_group
  after_wait-IsTornDown peer a [] = timed_out
  after_wait-IsTornDown peer a (heard (group_formed group) ∷ ws) =
      guarded-IsTornDown peer group ws _
  after_wait-IsTornDown peer a (heard (discovery_error e) ∷ ws) = reported e ws
  after_wait-IsTornDown peer a (heard group_removed ∷ ws) = removed ws
  after_wait-IsTornDown peer a (heard (peer_found q) ∷ ws) =
      passed _ ws _ tt (after_wait-IsTornDown peer a ws)
  after_wait-IsTornDown peer a (heard (peer_lost d) ∷ ws) =
      passed _ ws _ tt (after_wait-IsTornDown peer a ws)
  after_wait-IsTornDown peer a (channel_closed ∷ ws) = hung_up ws
  after_wait-IsTornDown peer a (quiet ∷ ws) = passed _ ws _ tt (after_wait-IsTornDown peer a ws)

  after_connect-IsTornDown :
      (peer : Text) (a : Answers) (c : Result (Unit {0}) Text)
      → c ≡ ok tt
      → IsTornDown peer a.waits (after_connect socket_addr rounds rtsp_port peer a c)
  unfolding after_connect
  after_connect-IsTornDown peer a (ok tt) asked = after_wait-IsTornDown peer a a.waits
  after_connect-IsTornDown peer a (err e) asked = absurd cc

  after_start-IsTornDown :
      (peer : Text) (a : Answers) (m : Result (Unit {0}) Text)
      → m ≡ ok tt
      → a.connect ≡ ok tt
      → IsTornDown peer a.waits (after_start socket_addr rounds rtsp_port peer a m)
  unfolding after_start
  after_start-IsTornDown peer a (ok tt) started asked =
      after_connect-IsTornDown peer a a.connect asked
  after_start-IsTornDown peer a (err e) started asked = absurd cc

  -- When the manager has started and has taken the request to connect, the rounds of the wait decide,
  -- and those that bring nothing or only peers do not. If a group forms, it is disconnected once, when
  -- the session returns, whatever it returns, and not while the session goes on. If an error is
  -- reported, the session disconnects and returns that error. If the group is removed, the channel
  -- closes or sixty seconds pass, it returns the error that says so, and does not disconnect.
  pub run_wifi_direct_session-IsTornDown :
      (peer : Text) (a : Answers)
      → a.manager ≡ ok tt
      → a.connect ≡ ok tt
      → IsTornDown peer a.waits (run_wifi_direct_session socket_addr rounds rtsp_port peer a)
  unfolding run_wifi_direct_session
  run_wifi_direct_session-IsTornDown peer a started asked =
      after_start-IsTornDown peer a a.manager started asked
