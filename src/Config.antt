-- ===== src/Config.antt =====
-- crates/openplay-common/src/config.rs: the configuration, its validation and its loading, and the
-- overrides of the command line (crates/openplay-receiver/src/main.rs). The TOML reader and the file
-- system answer through `ConfigFile`.
pub mod Usable
mod Examples
use openplay.Prelude.{
  none, some, ok, err, true, false, [], if◌then◌else◌, Result, Text, ℕ, Option, Bool, codes, ◌∷◌,
  ◌==◌, not, leb, ◌&&◌, ◌++◌,
}
use openplay.Prelude.Strings.{trim, decimal}
use openplay.Prelude.{◌>>=◌, ◌>>◌}

pub record AppConfig : Type 0 where
  pub display_name : Text
  pub port : ℕ
  pub max_bitrate_kbps : ℕ
  pub framerate : ℕ
  pub force_sw_encode : Bool
  pub airplay_enabled : Bool
  pub miracast_enabled : Bool

abbrev pub min_bitrate_kbps : ℕ
min_bitrate_kbps = 100

abbrev pub max_bitrate_limit_kbps : ℕ
max_bitrate_limit_kbps = 100000

abbrev pub min_framerate : ℕ
min_framerate = 1

abbrev pub max_framerate : ℕ
max_framerate = 240

abbrev pub default_port : ℕ
default_port = 7290

-- `AppConfig::default`; the host's name is an argument.
unfoldable pub default : (hostname : Text) → AppConfig
default hostname = record {
  display_name = hostname;
  port = default_port;
  max_bitrate_kbps = 6000;
  framerate = 30;
  force_sw_encode = false;
  airplay_enabled = true;
  miracast_enabled = true;
}

-- `display_name.trim().is_empty()`, by what `trim` leaves.
unfoldable pub is_empty : Text → Bool
is_empty [] = true
is_empty (c ∷ t) = false

-- An error is the message of `OpenPlayError::Config`.
unfoldable pub validate : AppConfig → Result (Unit {0}) Text
unfolding is_empty
validate c =
    if is_empty (trim c.display_name)
    then err (codes "display_name must not be empty")
    else if c.port == 0
    then err (codes "port must be between 1 and 65535")
    else if not
        (leb min_bitrate_kbps c.max_bitrate_kbps && leb c.max_bitrate_kbps max_bitrate_limit_kbps)
    then err (
        codes "max_bitrate_kbps must be between 100 and 100000, got " ++ decimal c.max_bitrate_kbps)
    else if not (leb min_framerate c.framerate && leb c.framerate max_framerate)
    then err (codes "framerate must be between 1 and 240, got " ++ decimal c.framerate)
    else ok tt

-- `config.toml` as it is found: missing, or what reading and parsing it gives.
pub data ConfigFile : Type 0 where
  missing : ConfigFile
  present : Result AppConfig Text → ConfigFile

unfoldable pub load_from : (hostname : Text) → ConfigFile → Result AppConfig Text
unfolding default
load_from hostname missing = ok (default hostname)
load_from hostname (present parsed) = parsed

-- The configuration if it passes.
unfoldable pub validated : AppConfig → Result AppConfig Text
validated c = do validate c; ok c

unfoldable pub load_validated_from : (hostname : Text) → ConfigFile → Result AppConfig Text
unfolding load_from validated
load_validated_from hostname file = do config ← load_from hostname file; validated config

-- Writing the defaults out may fail and changes nothing of the answer.
unfoldable pub load_or_create_at : (hostname : Text) → ConfigFile → Result AppConfig Text
unfolding load_validated_from default
load_or_create_at hostname missing = validated (default hostname)
load_or_create_at hostname (present parsed) = load_validated_from hostname (present parsed)

-- `--name` and `--port`.
unfoldable pub override_with : (name : Option Text) (port : Option ℕ) → AppConfig → AppConfig
override_with none none c = c
override_with (some n) none c = record c { display_name = n }
override_with none (some p) c = record c { port = p }
override_with (some n) (some p) c = record c { display_name = n; port = p }

-- The configuration that the receiver runs with.
unfoldable pub startup_config :
    (hostname : Text) → ConfigFile → (name : Option Text) (port : Option ℕ) → Result AppConfig Text
unfolding load_or_create_at override_with
startup_config hostname file name port = do
  config ← load_or_create_at hostname file
  validated (override_with name port config)
