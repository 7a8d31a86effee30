-- ===== src/Sender/Mirror/Examples.antt =====
-- A cast whose first frame is no key frame.
use openplay.Prelude.Strings.{strip_prefix, is_some, nth}
use openplay.Prelude.{none, some, true, false, refl, [], ◌∷◌, ℕ, List, ◌≡◌}
use openplay.Sender.Mirror.{Encoded, cast_frames, cast_commands}
use openplay.Sender.Mirror.Order.{IsUndisturbed, cast_frames-order}
use openplay.Sender.Nalu.{extract_sps_pps}
use openplay.Airplay.MirrorStream.{codec, frame, stop}

abbrev encoded : List ℕ → Encoded
encoded bytes = record { bytes = bytes; stopped = false; codec_taken = true; frame_taken = true }

abbrev late : Encoded
late = encoded (0 ∷ 0 ∷ 1 ∷ 0x41 ∷ [])

abbrev key : Encoded
key = encoded (0 ∷ 0 ∷ 1 ∷ 0x67 ∷ 9 ∷ 0 ∷ 0 ∷ 1 ∷ 0x68 ∷ 7 ∷ [])

cast_commands-stopped :
    cast_commands true (key ∷ encoded [] ∷ record late { stopped = true } ∷ late ∷ [])
    ≡ codec key.bytes ∷ frame key.bytes ∷ stop ∷ []
unfolding cast_commands extract_sps_pps strip_prefix is_some nth
cast_commands-stopped = refl

undisturbed : (b : ℕ) (bs : List ℕ) → IsUndisturbed (encoded (b ∷ bs))
undisturbed b bs = record {
  running = refl;
  codec_taken = refl;
  frame_taken = refl;
  nonempty = λ e. cc;
}

late-none : extract_sps_pps late.bytes ≡ none
unfolding extract_sps_pps strip_prefix is_some nth
late-none = refl

key-some : extract_sps_pps key.bytes ≡ some key.bytes
unfolding extract_sps_pps strip_prefix is_some nth
key-some = refl

-- The video goes out before the codec data.
cast_frames-order_example :
    cast_frames false (late ∷ key ∷ []) ≡ frame late.bytes ∷ codec key.bytes ∷ frame key.bytes ∷ []
cast_frames-order_example =
    cast_frames-order (late ∷ []) [] key key.bytes (undisturbed _ _, tt) (undisturbed _ _) tt
      (late-none, tt) key-some
