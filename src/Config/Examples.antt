-- ===== src/Config/Examples.antt =====
-- Configurations that pass and that do not.
use openplay.Prelude.Strings.{trim, is_whitespace, decimal_onto}
use openplay.Prelude.{none, some, ok, err, true, false, refl, codes, ◌≡◌}
use openplay.Config.{AppConfig, present, default, validate, startup_config}
use openplay.Config.Usable.{IsUsable, startup_config-IsUsable}

abbrev den : AppConfig
den = record {
  display_name = codes "den";
  port = 7290;
  max_bitrate_kbps = 6000;
  framerate = 30;
  force_sw_encode = false;
  airplay_enabled = true;
  miracast_enabled = true;
}

default-den : default (codes "den") ≡ den
unfolding default
default-den = refl

validate-blank :
    validate (record den { display_name = codes " \t" })
    ≡ err (codes "display_name must not be empty")
unfolding validate trim is_whitespace
validate-blank = refl

validate-slow :
    validate (record den { max_bitrate_kbps = 99 })
    ≡ err (codes "max_bitrate_kbps must be between 100 and 100000, got 99")
unfolding validate trim is_whitespace decimal_onto
validate-slow = refl

startup_config-den :
    startup_config (codes "host") (present (ok den)) none (some 8000)
    ≡ ok (record den { port = 8000 })
unfolding startup_config validate trim is_whitespace
startup_config-den = refl

startup_config-IsUsable_example : IsUsable (record den { port = 8000 })
startup_config-IsUsable_example =
    startup_config-IsUsable (codes "host") (present (ok den)) none (some 8000)
      (record den { port = 8000 }) startup_config-den
