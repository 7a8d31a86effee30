-- ===== src/Discovery/Record/Examples.antt =====
-- Records of receivers.
use openplay.Prelude.Strings.{from_str_radix, to_digit}
use openplay.Prelude.{none, some, refl, [], text_eq, ◌≡◌, codes, arith, ◌∷◌}
use openplay.Discovery.Record.{TxtRecord, to_properties, from_properties, airplay_from_properties}
use openplay.Discovery.Record.RoundTrip.{from_properties-to_properties}

abbrev living_room : TxtRecord
living_room = record {
  version = 1;
  display_name = codes "Living Room";
  capabilities = codes "audio,cursor";
  video_codecs = codes "h264";
  audio_codecs = codes "opus";
  resolution = codes "3840x2160";
  max_fps = 60;
  fingerprint = codes "A3:B2";
  port = 7290;
}

-- What is missing takes its default; a frame rate that is no number takes it too.
from_properties-defaults :
    from_properties
      ((codes "v", codes "1") ∷ (codes "dn", codes "den") ∷ (codes "fps", codes "x") ∷ [])
    ≡ some (record {
      version = 1;
      display_name = codes "den";
      capabilities = [];
      video_codecs = codes "h264";
      audio_codecs = codes "opus";
      resolution = codes "1920x1080";
      max_fps = 30;
      fingerprint = [];
      port = 7290;
    })
unfolding from_properties text_eq from_str_radix to_digit
from_properties-defaults = refl

airplay_from_properties-missing :
    airplay_from_properties ((codes "features", codes "0x1") ∷ []) ≡ none
unfolding airplay_from_properties text_eq
airplay_from_properties-missing = refl

from_properties-to_properties_example :
    from_properties (to_properties living_room) ≡ some living_room
from_properties-to_properties_example =
    from_properties-to_properties living_room (omega arith) (omega arith) (omega arith)
