-- ===== src/Sender/Mirror/Order.antt =====
-- Where the codec data stands among the frames of an AirPlay cast
-- (crates/openplay-sender/src/casting.rs).
use openplay.Prelude.Strings.{is_some}
use openplay.Prelude.{some}
use openplay.Prelude.{
  none, true, false, refl, [], if◌then◌else◌, ◌≡◌, List, Option, ◌∷◌, All, ◌≢◌, ℕ, ◌∙◌, ap, ◌++◌,
}
use openplay.Sender.Mirror.{Encoded, codec_now, send_frame, send_codec, handle_frame, cast_frames}
use openplay.Sender.Nalu.{extract_sps_pps}
use openplay.Airplay.MirrorStream.{SessionCommand, codec, frame}

-- The user does not stop the cast, and the session takes what it is sent.
pub record IsUndisturbed (f : Encoded) : Type 0 where
  pub running : f.stopped ≡ false
  pub codec_taken : f.codec_taken ≡ true
  pub frame_taken : f.frame_taken ≡ true
  pub nonempty : f.bytes ≢ []

abbrev pub videos : List Encoded → List SessionCommand
videos [] = []
videos (f ∷ fs) = frame f.bytes ∷ videos fs

handle_frame-taken :
    (bytes : List ℕ) (found : Option (List ℕ)) (rest : List SessionCommand)
    → bytes ≢ []
    → handle_frame bytes found true true rest ≡ send_codec found true (frame bytes ∷ rest)
unfolding handle_frame send_frame
handle_frame-taken [] found rest h = absurd (h refl)
handle_frame-taken (b ∷ bs) found rest h = refl

handle_frame-undisturbed :
    (f : Encoded) (found : Option (List ℕ)) (rest : List SessionCommand)
    → IsUndisturbed f
    → (if f.stopped then [] else handle_frame f.bytes found f.codec_taken f.frame_taken rest)
      ≡ send_codec found true (frame f.bytes ∷ rest)
handle_frame-undisturbed f found rest h =
    (λ i.
      if h.running i
      then []
      else handle_frame f.bytes found (h.codec_taken i) (h.frame_taken i) rest)
    ∙ handle_frame-taken f.bytes found rest h.nonempty

cast_frames-sent : (fs : List Encoded) → All IsUndisturbed fs → cast_frames true fs ≡ videos fs
unfolding cast_frames codec_now send_codec
cast_frames-sent [] h = refl
cast_frames-sent (f ∷ fs) h =
    handle_frame-undisturbed f none (cast_frames true fs) h.0
    ∙ ap (λ t. frame f.bytes ∷ t) (cast_frames-sent fs h.1)

-- One round of the loop while no codec data is sent.
cast_frames-round :
    (f : Encoded) (fs : List Encoded) (found : Option (List ℕ))
    → IsUndisturbed f
    → extract_sps_pps f.bytes ≡ found
    → cast_frames false (f ∷ fs)
      ≡ send_codec found true (frame f.bytes ∷ cast_frames (is_some found) fs)
unfolding cast_frames codec_now
cast_frames-round f fs found h e =
    handle_frame-undisturbed f _ _ h
    ∙ (λ i. send_codec (e i) true (frame f.bytes ∷ cast_frames (is_some (e i)) fs))

-- A cast that nobody disturbs, of frames that are not empty, sends every frame, in order. The frames before the first one that
-- holds a sequence parameter set go out before any codec data; then the codec data goes out, once,
-- in front of that frame.
pub cast_frames-order :
    (before after : List Encoded) (key : Encoded) (c : List ℕ)
    → All IsUndisturbed before
    → IsUndisturbed key
    → All IsUndisturbed after
    → All (λ f. extract_sps_pps f.bytes ≡ none) before
    → extract_sps_pps key.bytes ≡ some c
    → cast_frames false (before ++ (key ∷ after))
      ≡ videos before ++ (codec c ∷ frame key.bytes ∷ videos after)
unfolding send_codec is_some
cast_frames-order [] after key c hb hk ha quiet e =
    cast_frames-round key after (some c) hk e
    ∙ ap (λ t. codec c ∷ frame key.bytes ∷ t) (cast_frames-sent after ha)
cast_frames-order (f ∷ before) after key c hb hk ha quiet e =
    cast_frames-round f (before ++ (key ∷ after)) none hb.0 quiet.0
    ∙ ap (λ t. frame f.bytes ∷ t) (cast_frames-order before after key c hb.1 hk ha quiet.1 e)
