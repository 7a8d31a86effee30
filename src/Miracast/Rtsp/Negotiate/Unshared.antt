-- ===== src/Miracast/Rtsp/Negotiate/Unshared.antt =====
-- The mode that M4 asks for.
use openplay.Prelude.{false, ◌≡◌, ℕ, List, Text, ◌++◌, ◌∷◌}
use openplay.Miracast.Rtsp.Negotiate.{set_parameter_msg}
use openplay.Miracast.WfdParams.{WfdVideoFormats, supports, res_1280x720_p30}
use Prim.Native.Nat.{bit_and}

-- What M4 asks for, among the messages that were sent, and what the two sides share.
pub record AsksUnshared (source sink : WfdVideoFormats) (sent : List Text) : Type 0 where
  pub before : List Text
  pub number : ℕ
  pub after : List Text
  pub asked :
      sent
      ≡ before
        ++ (set_parameter_msg number (record source { cea_resolutions = res_1280x720_p30 }) ∷ after)
  pub unshared :
      supports (bit_and source.cea_resolutions sink.cea_resolutions) res_1280x720_p30 ≡ false
