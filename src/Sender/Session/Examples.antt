-- ===== src/Sender/Session/Examples.antt =====
-- Runs of the sender's session.
use openplay.Prelude.{none, some, ok, err, true, false, refl, [], ◌≡◌, List, ◌∷◌, codes, ◌⊎◌, Bool}
use openplay.Sender.Session.{
  Heard, received, slept, Media, Round, event, message, sent, run_openplay_pipeline,
  set_remote_description, stop_pipeline, with_request, finish, drive_session,
}
use openplay.Sender.Session.Accepted.{Accepted, run_openplay_pipeline-Accepted}
use openplay.Protocol.Message.{
  session_accept, session_reject, session_end, sdp_offer, sdp_answer, denied, user_stopped, ping,
  pong, SignalingMessage,
}
use openplay.Receiver.Loop.{local_description, offer, disconnected}

abbrev request : SignalingMessage
request = ping 1

abbrev accept : Heard
accept = received (
    some (
      session_accept (codes "tv") (record {
        video_codec = codes "h264";
        audio_codec = none;
        max_bitrate_kbps = 6000;
        framerate = 30;
      })))

abbrev waits : List (Bool × Heard)
waits = (false, slept) ∷ (false, received (some (pong 1 2))) ∷ (false, accept) ∷ []

abbrev media : Media
media = record { make = ok tt; start = ok tt; stop = ok tt }

abbrev script : List Round
script =
    record {
      stopped = false;
      queue_open = true;
      set_remote = ok tt;
      happened = event (some (local_description offer (codes "o")));
    }
    ∷ record {
      stopped = false;
      queue_open = true;
      set_remote = ok tt;
      happened = message (received (some (sdp_answer (codes "a"))));
    }
    ∷ record {
      stopped = false;
      queue_open = true;
      set_remote = ok tt;
      happened = event (some disconnected);
    }
    ∷ []

run_openplay_pipeline-whole : run_openplay_pipeline request true waits media script ≡ (
  some (ok tt),
  sent request
      ∷ sent (sdp_offer (codes "o"))
      ∷ set_remote_description (codes "a")
      ∷ sent (session_end user_stopped)
      ∷ stop_pipeline
      ∷ [],
)
unfolding run_openplay_pipeline
run_openplay_pipeline-whole = refl

run_openplay_pipeline-declined :
    run_openplay_pipeline request true
      ((false, received (some (session_reject denied))) ∷ [])
      media
      script
    ≡ (some (err (codes "The person at the receiver declined the cast")), sent request ∷ [])
unfolding run_openplay_pipeline
run_openplay_pipeline-declined = refl

run_openplay_pipeline-Accepted_example :
    ((run_openplay_pipeline request true waits media script).1 ≡ sent request ∷ [])
    ⊎ (Accepted waits
        × (media.make ≡ ok tt)
        × (media.start ≡ ok tt)
        × (run_openplay_pipeline request true waits media script
            ≡ with_request request (finish media.stop (drive_session script))))
run_openplay_pipeline-Accepted_example = run_openplay_pipeline-Accepted request waits media script
