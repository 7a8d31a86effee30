-- ===== src/Sender/Session/Accepted.antt =====
-- The wait of the sender for the receiver's answer, and what the answer allows
-- (crates/openplay-sender/src/casting.rs).
use openplay.Prelude.{err}
use openplay.Protocol.Message.{session_accept, session_reject}
use openplay.Sender.Session.{Heard, or_wait, wait_for_session_accept, wait_round, Outcome, received}
use openplay.Prelude.{
  none, some, ok, inl, inr, true, false, refl, [], List, Bool, ◌≡◌, ap, ◌⊎◌, ◌∷◌, ◌∙◌, arith, ◌↔◌,
}
use openplay.Sender.Session.{
  slept, received, Heard, Outcome, wait_round, or_wait, wait_for_session_accept, cast_media,
  after_wait, Media, Round, Answer, run_openplay_pipeline, finish, with_request, drive_session,
  sent,
}
use openplay.Protocol.Message.{session_accept, session_reject, SignalingMessage}

-- What leaves the wait going on: silence, and every message that neither accepts nor rejects.
pub IsQuiet : Heard → Type 0
IsQuiet (received (some (session_accept r n))) = ⊥
IsQuiet (received (some (session_reject reason))) = ⊥
IsQuiet (received (some other)) = Unit
IsQuiet (received none) = ⊥
IsQuiet slept = Unit

pub IsAccept : Heard → Type 0
IsAccept (received (some (session_accept r n))) = Unit
IsAccept (received (some other)) = ⊥
IsAccept (received none) = ⊥
IsAccept slept = ⊥

-- The receiver accepts after quiet rounds, the stop flag down in all of them.
pub data Accepted : List (Bool × Heard) → Type 0 where
  now :
      (heard : Heard) (script : List (Bool × Heard))
      → IsAccept heard
      → Accepted ((false, heard) ∷ script)
  later :
      (heard : Heard) (script : List (Bool × Heard))
      → IsQuiet heard
      → Accepted script
      → Accepted ((false, heard) ∷ script)

wait_round-none_iff : (heard : Heard) → (wait_round heard ≡ none) ↔ IsQuiet heard
unfolding wait_round IsQuiet
wait_round-none_iff (received (some m)) = ground arith
wait_round-none_iff (received none) = ground arith
wait_round-none_iff slept = ground arith

wait_round-ok_iff : (heard : Heard) → (wait_round heard ≡ some (ok tt)) ↔ IsAccept heard
unfolding wait_round IsAccept
wait_round-ok_iff (received (some m)) = ground arith
wait_round-ok_iff (received none) = ground arith
wait_round-ok_iff slept = ground arith

or_wait-ok :
    (r next : Outcome)
    → or_wait r next ≡ some (ok tt)
    → (r ≡ some (ok tt)) ⊎ ((r ≡ none) × (next ≡ some (ok tt)))
unfolding or_wait
or_wait-ok none next h = inr (refl, h)
or_wait-ok (some r) next h = inl h

wait-Accepted :
    (script : List (Bool × Heard)) → wait_for_session_accept script ≡ some (ok tt) → Accepted script
unfolding wait_for_session_accept
wait-Accepted [] h = absurd cc
wait-Accepted ((true, heard) ∷ script) h = absurd cc
wait-Accepted ((false, heard) ∷ script) h = elim (or_wait-ok (wait_round heard) _ h) [
  | inl e ↦ now heard script ((wait_round-ok_iff heard).0 e)
  | inr e ↦ later heard script ((wait_round-none_iff heard).0 e.0) (wait-Accepted script e.1)
]

Accepted-wait :
    (script : List (Bool × Heard)) → Accepted script → wait_for_session_accept script ≡ some (ok tt)
unfolding wait_for_session_accept wait_round or_wait
Accepted-wait _ (now heard script accepts) =
    ap (λ r. or_wait r (wait_for_session_accept script)) ((wait_round-ok_iff heard).1 accepts)
Accepted-wait _ (later heard script quiet rest) =
    ap (λ r. or_wait r (wait_for_session_accept script)) ((wait_round-none_iff heard).1 quiet)
    ∙ Accepted-wait script rest

-- The wait returns without an error exactly when the receiver accepts after rounds of silence or of
-- messages that neither accept nor reject, the stop flag down up to then.
pub wait_for_session_accept-ok_iff :
    (script : List (Bool × Heard))
    → (wait_for_session_accept script ≡ some (ok tt)) ↔ Accepted script
wait_for_session_accept-ok_iff script = (wait-Accepted script, Accepted-wait script)

cast_media-cases :
    (media : Media) (script : List Round) (make start : Answer)
    → ((cast_media media script make start).1 ≡ [])
      ⊎ ((make ≡ ok tt)
          × (start ≡ ok tt)
          × (cast_media media script make start ≡ finish media.stop (drive_session script)))
unfolding cast_media
cast_media-cases media script (err e) start = inl refl
cast_media-cases media script (ok u) (err e) = inl refl
cast_media-cases media script (ok u) (ok v) = inr (refl, refl, refl)

after_wait-cases :
    (media : Media) (script : List Round) (waited : Outcome)
    → ((after_wait media script waited).1 ≡ [])
      ⊎ ((waited ≡ some (ok tt))
          × (media.make ≡ ok tt)
          × (media.start ≡ ok tt)
          × (after_wait media script waited ≡ finish media.stop (drive_session script)))
unfolding after_wait
after_wait-cases media script none = inl refl
after_wait-cases media script (some (err e)) = inl refl
after_wait-cases media script (some (ok u)) =
    elim (cast_media-cases media script media.make media.start) [
      | inl e ↦ inl e
      | inr e ↦ inr (refl, e.0, e.1, e.2)
    ]

-- A run of the sender whose request is queued makes the request its first call. Either it makes no
-- other, or the receiver has accepted and the pipeline was made and started, and the rest of the
-- run is the session with its end.
pub run_openplay_pipeline-Accepted :
    (request : SignalingMessage) (waits : List (Bool × Heard)) (media : Media) (script : List Round)
    → ((run_openplay_pipeline request true waits media script).1 ≡ sent request ∷ [])
      ⊎ (Accepted waits
          × (media.make ≡ ok tt)
          × (media.start ≡ ok tt)
          × (run_openplay_pipeline request true waits media script
              ≡ with_request request (finish media.stop (drive_session script))))
unfolding run_openplay_pipeline with_request
run_openplay_pipeline-Accepted request waits media script =
    elim (after_wait-cases media script (wait_for_session_accept waits)) [
      | inl e ↦ inl (ap (λ calls. sent request ∷ calls) e)
      | inr e ↦ inr (wait-Accepted waits e.0, e.1, e.2, ap (with_request request) e.3)
    ]
