-- ===== src/Sender/Mirror.antt =====
-- crates/openplay-sender/src/casting.rs: the loop of an AirPlay cast, from the frames of the encoder to
-- the commands of the session.
pub mod Order
mod Examples
use openplay.Prelude.Strings.{is_some}
use openplay.Prelude.{
  none, some, true, false, [], if◌then◌else◌, List, Bool, Option, ℕ, ◌++◌, ◌∷◌, ◌||◌,
}
use openplay.Sender.Nalu.{extract_sps_pps}
use openplay.Airplay.MirrorStream.{SessionCommand, codec, frame, stop}

-- A frame as the loop receives it: the stop flag then, and whether the session takes the codec data
-- and the frame.
pub record Encoded : Type 0 where
  pub bytes : List ℕ
  pub stopped : Bool
  pub codec_taken : Bool
  pub frame_taken : Bool

-- What is found in the frame while no codec data is sent.
unfoldable pub codec_now : (sent_codec_data : Bool) → List ℕ → Option (List ℕ)
codec_now true bytes = none
codec_now false bytes = extract_sps_pps bytes

unfoldable pub send_frame :
    (taken : Bool) (bytes : List ℕ) (rest : List SessionCommand) → List SessionCommand
send_frame true bytes rest = frame bytes ∷ rest
send_frame false bytes rest = []

unfoldable pub send_codec :
    Option (List ℕ) → (taken : Bool) (rest : List SessionCommand) → List SessionCommand
send_codec none taken rest = rest
send_codec (some c) true rest = codec c ∷ rest
send_codec (some c) false rest = []

-- A frame of no bytes is passed over.
unfoldable pub handle_frame :
    (bytes : List ℕ) (found : Option (List ℕ)) (codec_taken frame_taken : Bool)
    (rest : List SessionCommand)
    → List SessionCommand
unfolding send_codec send_frame
handle_frame [] found codec_taken frame_taken rest = rest
handle_frame (b ∷ bs) found codec_taken frame_taken rest =
    send_codec found codec_taken (send_frame frame_taken (b ∷ bs) rest)

-- The commands that the loop sends. Nothing is found in a frame of no bytes, so it does not change
-- whether the codec data is sent.
unfoldable pub cast_frames : (sent_codec_data : Bool) → List Encoded → List SessionCommand
unfolding handle_frame codec_now
cast_frames sent [] = []
cast_frames sent (f ∷ frames) =
    let rest = cast_frames (sent || is_some (codec_now sent f.bytes)) frames in
    if f.stopped
    then []
    else handle_frame f.bytes (codec_now sent f.bytes) f.codec_taken f.frame_taken rest

-- Behind the loop the session is stopped, unless the pipeline fails to.
unfoldable pub cast_commands : (pipeline_stops : Bool) → List Encoded → List SessionCommand
unfolding cast_frames
cast_commands true frames = cast_frames false frames ++ (stop ∷ [])
cast_commands false frames = cast_frames false frames
