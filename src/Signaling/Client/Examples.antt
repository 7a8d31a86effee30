-- ===== src/Signaling/Client/Examples.antt =====
-- Frames that the client reads, and names of receivers that are heard and that are not.
use openplay.Protocol.Validate.Bounds.{IsName}
use openplay.Prelude.Strings.{trim, is_whitespace}
use openplay.Prelude.{
  none, some, ok, true, false, refl, [], length, replicate, codes, ◌≡◌, Text, Option, ◌∷◌, ◌⊎◌,
}
use openplay.Signaling.Client.{read_incoming, text, close, other_frame}
use openplay.Signaling.Client.Naming.{acceptance-heard_or_dropped, acceptance, IsUnfit}
use openplay.Signaling.Client.Accept.{hears}
use openplay.Sender.Session.{wait_for_session_accept}
use openplay.Receiver.Loop.{SessionLoop, Pending, approve, sent, waiting, empty_slot}
use openplay.Protocol.Message.{SignalingMessage, ping}
use openplay.Config.{AppConfig}
use openplay.Config

-- 65 characters, one more than the protocol takes.
abbrev long : AppConfig
long = record {
  display_name = replicate 65 b'h';
  port = 7290;
  max_bitrate_kbps = 6000;
  framerate = 30;
  force_sw_encode = false;
  airplay_enabled = true;
  miracast_enabled = true;
}

abbrev state : SessionLoop
state = record {
  undiscoverable = none;
  active = none;
  pending = [];
  frame = empty_slot;
  status = waiting;
  config = record { display_name = long.display_name; max_bitrate_kbps = 6000; framerate = 30 };
}

abbrev asked : Pending
asked = record { reply = record { id = 7 }; display_name = codes "ann"; framerate = 30 }

abbrev read : Text → Option SignalingMessage
read json = some (acceptance state asked)

long-valid : openplay.Config.validate long ≡ ok tt
unfolding openplay.Config.validate trim is_whitespace
long-valid = refl

read_incoming-closed :
    read_incoming
      (λ t. some (ping (length t)))
      ((text (codes "a"), true) ∷ (other_frame, true) ∷ (close, true) ∷ (text [], true) ∷ [])
    ≡ ping 1 ∷ []
unfolding read_incoming openplay.Protocol.Validate.validate
read_incoming-closed = refl

acceptance-heard_or_dropped_example :
    ((approve state 7 asked).1 ≡ sent asked.reply (acceptance state asked) ∷ [])
    × ((IsName long.display_name
          × (wait_for_session_accept (hears read ((text [], true) ∷ [])) ≡ some (ok tt)))
        ⊎ (IsUnfit long.display_name
            × (wait_for_session_accept (hears read ((text [], true) ∷ [])) ≡ none)))
acceptance-heard_or_dropped_example =
    acceptance-heard_or_dropped read long state 7 asked [] long-valid refl refl
