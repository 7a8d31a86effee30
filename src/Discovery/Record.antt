-- ===== src/Discovery/Record.antt =====
-- crates/openplay-discovery/src/record.rs and airplay_record.rs: the properties that a receiver
-- advertises over mDNS, as pairs of a key and a value.
pub mod RoundTrip
mod Examples
use openplay.Prelude.{
  none, some, [], if◌then◌else◌, List, ℕ, Option, Text, codes, ◌∷◌, ◌^◌, text_eq, ◌-◌,
}
use openplay.Prelude.Strings.{decimal, parse_number, or_else, and_then}
use openplay.Config.{default_port}

pub record TxtRecord : Type 0 where
  pub version : ℕ
  pub display_name : Text
  pub capabilities : Text
  pub video_codecs : Text
  pub audio_codecs : Text
  pub resolution : Text
  pub max_fps : ℕ
  pub fingerprint : Text
  pub port : ℕ

abbrev pub Properties : Type 0
Properties = List (Text × Text)

unfoldable pub to_properties : TxtRecord → Properties
to_properties r =
    (codes "v", decimal r.version)
    ∷ (codes "dn", r.display_name)
    ∷ (codes "cap", r.capabilities)
    ∷ (codes "vc", r.video_codecs)
    ∷ (codes "ac", r.audio_codecs)
    ∷ (codes "res", r.resolution)
    ∷ (codes "fps", decimal r.max_fps)
    ∷ (codes "fp", r.fingerprint)
    ∷ (codes "port", decimal r.port)
    ∷ []

-- The value of the first pair with the key.
unfoldable pub get : Properties → (key : Text) → Option Text
get [] key = none
get ((k, v) ∷ props) key = let later = get props key in if text_eq k key then some v else later

-- The fields behind the two that must be there.
unfoldable pub record_of :
    Properties → (version : Option ℕ) (display_name : Option Text) → Option TxtRecord
unfolding get
record_of props none display_name = none
record_of props (some version) none = none
record_of props (some version) (some display_name) = some (record {
  version = version;
  display_name = display_name;
  capabilities = or_else (get props (codes "cap")) [];
  video_codecs = or_else (get props (codes "vc")) (codes "h264");
  audio_codecs = or_else (get props (codes "ac")) (codes "opus");
  resolution = or_else (get props (codes "res")) (codes "1920x1080");
  max_fps = or_else (and_then (get props (codes "fps")) (parse_number (2 ^ 32 - 1))) 30;
  fingerprint = or_else (get props (codes "fp")) [];
  port = or_else (and_then (get props (codes "port")) (parse_number (2 ^ 16 - 1))) default_port;
})

unfoldable pub from_properties : Properties → Option TxtRecord
unfolding record_of
from_properties props =
    record_of props (and_then (get props (codes "v")) (parse_number (2 ^ 32 - 1)))
      (get props (codes "dn"))

pub record AirPlayTxtRecord : Type 0 where
  pub device_id : Text
  pub features : Text
  pub model : Text
  pub pk : Text
  pub flags : Text
  pub source_version : Text
  pub protocol_version : Text

unfoldable pub airplay_record_of : Properties → (device_id : Option Text) → Option AirPlayTxtRecord
unfolding get
airplay_record_of props none = none
airplay_record_of props (some device_id) = some (record {
  device_id = device_id;
  features = or_else (get props (codes "features")) [];
  model = or_else (get props (codes "model")) [];
  pk = or_else (get props (codes "pk")) [];
  flags = or_else (get props (codes "flags")) [];
  source_version = or_else (get props (codes "srcvers")) [];
  protocol_version = or_else (get props (codes "protovers")) [];
})

-- `AirPlayTxtRecord::from_properties`.
unfoldable pub airplay_from_properties : Properties → Option AirPlayTxtRecord
unfolding airplay_record_of
airplay_from_properties props = airplay_record_of props (get props (codes "deviceid"))
