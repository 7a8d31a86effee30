-- ===== src/Airplay/MirrorStream/Examples.antt =====
-- A short session.
use openplay.Prelude.{none, some, err, true, false, refl, [], ◌≡◌, ◌∷◌, List, ℕ, arith}
use openplay.Airplay.MirrorStream.{
  SessionEvent, command, tick, codec, frame, stop, run_session, header_failed,
}
use openplay.Airplay.MirrorStream.Received.{packets, run_session-received, read_packets, live}

abbrev events : List (ℕ × SessionEvent)
events = (5, command (codec (1 ∷ 2 ∷ []))) ∷ (6, tick) ∷ (7, command (frame (3 ∷ []))) ∷ []

-- The first write fails: the session ends with the error, and the heartbeats go on.
run_session-failed :
    (run_session ((1, command (codec (1 ∷ []))) ∷ (2, command (frame (2 ∷ []))) ∷ []) (record {
      stream = record { written = []; outcomes = false ∷ [] };
      beating = true;
      ended = none;
    }))
    ≡ record {
      stream = record { written = []; outcomes = [] };
      beating = true;
      ended = some (err header_failed);
    }
unfolding run_session
run_session-failed = refl

run_session-stopped : (run_session ((1, command stop) ∷ (2, tick) ∷ []) (live [])).beating ≡ false
unfolding run_session
run_session-stopped = refl

run_session-received_example :
    read_packets 4 (run_session events (live [])).stream.written ≡ some (packets events)
run_session-received_example = run_session-received events (omega arith) (omega arith)
