-- ===== src/Sender/App/Done.antt =====
-- The messages of a cast (crates/openplay-sender/src/casting.rs) tell the window when it is over
-- (crates/openplay-sender/src/app.rs).
use openplay.Prelude.{ok, err, false, [], if◌then◌else◌}
use openplay.Prelude.Strings.{strip_prefix}
use openplay.Prelude.{
  true, refl, codes, Text, ◌++◌, ◌≡◌, arith, Bool, List, Result, All, ◌∷◌, ap, ◌∙◌,
}
use openplay.Sender.App.{
  Effect, discovery_resumed, SenderApp, CastKind, openplay_cast, airplay_cast, miracast_cast,
  miracast_p2p_cast, CastResult, finished, cancelled, failed, panicked, is_done, on_status,
  on_statuses, end_cast, last_message, first_messages, final_message, connecting, contains,
}

failed_lem : (e : Text) → is_done (codes "Casting failed: " ++ e) ≡ true
unfolding is_done strip_prefix
failed_lem e = ground arith

error_lem : (e : Text) → is_done (codes "Casting error: " ++ e) ≡ true
unfolding is_done strip_prefix
error_lem e = ground arith

capture_lem : (e : Text) → is_done (codes "Capture failed: " ++ e) ≡ true
unfolding is_done strip_prefix
capture_lem e = ground arith

stopped_lem : is_done (codes "Casting stopped") ≡ true
unfolding is_done strip_prefix
stopped_lem = refl

ended_lem : is_done (codes "Casting ended") ≡ true
unfolding is_done strip_prefix
ended_lem = refl

starting_lem : is_done (codes "Starting screen capture...") ≡ false
unfolding is_done strip_prefix
starting_lem = refl

connecting_lem : (kind : CastKind) → is_done (connecting kind) ≡ false
unfolding is_done strip_prefix connecting
connecting_lem openplay_cast = refl
connecting_lem airplay_cast = refl
connecting_lem miracast_cast = refl
connecting_lem miracast_p2p_cast = refl

stopped_or_failed_lem :
    (stopped : Bool) (e : Text)
    → is_done (if stopped then codes "Casting stopped" else codes "Casting failed: " ++ e) ≡ true
stopped_or_failed_lem true e = stopped_lem
stopped_or_failed_lem false e = failed_lem e

last_message_lem :
    (kind : CastKind) (r : CastResult) (t : Text) → is_done (last_message kind r t) ≡ true
unfolding last_message
last_message_lem openplay_cast finished t = ended_lem
last_message_lem airplay_cast finished t = ended_lem
last_message_lem miracast_cast finished t = ended_lem
last_message_lem miracast_p2p_cast finished t = ended_lem
last_message_lem openplay_cast cancelled t = stopped_lem
last_message_lem airplay_cast cancelled t = stopped_lem
last_message_lem miracast_cast cancelled t = stopped_lem
last_message_lem miracast_p2p_cast cancelled t = error_lem t
last_message_lem openplay_cast (failed e) t =
    stopped_or_failed_lem (contains (codes "stopped by user") e) e
last_message_lem airplay_cast (failed e) t =
    stopped_or_failed_lem (contains (codes "stopped by user") e) e
last_message_lem miracast_cast (failed e) t =
    stopped_or_failed_lem (contains (codes "stopped by user") e) e
last_message_lem miracast_p2p_cast (failed e) t = failed_lem e
last_message_lem openplay_cast (panicked e) t = error_lem e
last_message_lem airplay_cast (panicked e) t = error_lem e
last_message_lem miracast_cast (panicked e) t = error_lem e
last_message_lem miracast_p2p_cast (panicked e) t = error_lem e

final_message_lem :
    (kind : CastKind) (captured : Result CastResult Text) (t : Text)
    → is_done (final_message kind captured t) ≡ true
unfolding final_message
final_message_lem kind (ok r) t = last_message_lem kind r t
final_message_lem kind (err e) t = capture_lem e

first_messages_lem :
    (kind : CastKind) (captured : Result CastResult Text)
    → All (λ m. is_done m ≡ false) (first_messages kind captured)
unfolding first_messages
first_messages_lem kind (ok r) = (starting_lem, (connecting_lem kind, tt))
first_messages_lem kind (err e) = (starting_lem, tt)

on_status-open :
    (m : Text) (s : SenderApp) → is_done m ≡ false → (on_status m s).0 ≡ record s { status = m }
unfolding on_status
on_status-open m s h = rw h refl

on_statuses-casting :
    (ms : List Text) (s : SenderApp)
    → All (λ m. is_done m ≡ false) ms
    → s.is_casting ≡ true
    → (on_statuses ms s).is_casting ≡ true
unfolding on_statuses
on_statuses-casting [] s h casting = casting
on_statuses-casting (m ∷ ms) s h casting =
    on_statuses-casting ms (on_status m s).0 h.1
      (ap (λ (t : SenderApp). t.is_casting) (on_status-open m s h.0) ∙ casting)

on_statuses-paused :
    (ms : List Text) (s : SenderApp)
    → All (λ m. is_done m ≡ false) ms
    → (on_statuses ms s).p2p_discovery_paused ≡ s.p2p_discovery_paused
unfolding on_statuses
on_statuses-paused [] s h = refl
on_statuses-paused (m ∷ ms) s h =
    on_statuses-paused ms (on_status m s).0 h.1
    ∙ ap (λ (t : SenderApp). t.p2p_discovery_paused) (on_status-open m s h.0)

-- The scan is asked to go on if it was paused.
abbrev pub resumption : (paused : Bool) → List Effect
resumption true = discovery_resumed ∷ []
resumption false = []

on_status-resumes :
    (m : Text) (s : SenderApp)
    → is_done m ≡ true
    → (on_status m s).1 ≡ resumption s.p2p_discovery_paused
unfolding on_status end_cast
on_status-resumes m s h = rw h (resumes s.p2p_discovery_paused)
  where
    resumes : (b : Bool) → (if b then discovery_resumed ∷ [] else []) ≡ resumption b
    resumes true = refl
    resumes false = refl

-- The window at rest, with a last word.
pub record IsIdle (last : Text) (s : SenderApp) : Type 0 where
  pub resting : s.is_casting ≡ false
  pub without_handle : s.stoppable ≡ false
  pub scanning : s.p2p_discovery_paused ≡ false
  pub last_word : s.status ≡ last

on_status-done : (m : Text) (s : SenderApp) → is_done m ≡ true → IsIdle m (on_status m s).0
unfolding on_status end_cast
on_status-done m s h =
    rw h (record { resting = refl; without_handle = refl; scanning = refl; last_word = refl })

-- Of whatever kind a cast is and however it ends, no message of it but the last makes the window
-- give up the cast, and the last one does: nothing is cast then, there is no stop handle left, the scan
-- for Wi-Fi Direct peers is not paused, and it was asked to go on if the cast had paused it.
pub cast_messages-IsIdle :
    (kind : CastKind) (captured : Result CastResult Text) (cancelled_text : Text) (s : SenderApp)
    → s.is_casting ≡ true
    → let t = on_statuses (first_messages kind captured) s in
      let last = final_message kind captured cancelled_text in
      (t.is_casting ≡ true)
      × IsIdle last (on_status last t).0
      × ((on_status last t).1 ≡ resumption s.p2p_discovery_paused)
cast_messages-IsIdle kind captured cancelled_text s casting = (
  on_statuses-casting (first_messages kind captured) s (first_messages_lem kind captured) casting,
  on_status-done (final_message kind captured cancelled_text) _
      (final_message_lem kind captured cancelled_text),
  on_status-resumes (final_message kind captured cancelled_text) _
        (final_message_lem kind captured cancelled_text)
      ∙ ap resumption
          (on_statuses-paused (first_messages kind captured) s (first_messages_lem kind captured)),
)
