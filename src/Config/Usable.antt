-- ===== src/Config/Usable.antt =====
-- What a configuration that passes is good for (crates/openplay-common/src/config.rs).
use openplay.Prelude.{err}
use openplay.Prelude.Strings.{trim}
use openplay.Prelude.{ok, false, refl, [], ◌≡◌, Text, Option, ◌↔◌, ◌≢◌, arith, ◌≤◌, ℕ, ◌∷◌}
use openplay.Prelude.{◌>>=◌, Result, subst}
use openplay.Config.{
  AppConfig, ConfigFile, validate, validated, is_empty, startup_config, load_or_create_at,
  override_with,
}

-- The documented ranges.
pub record IsUsable (c : AppConfig) : Type 0 where
  pub named : trim c.display_name ≢ []
  pub port_set : 1 ≤ c.port
  pub bitrate_low : 100 ≤ c.max_bitrate_kbps
  pub bitrate_high : c.max_bitrate_kbps ≤ 100000
  pub framerate_low : 1 ≤ c.framerate
  pub framerate_high : c.framerate ≤ 240

is_empty_iff : (t : Text) → (is_empty t ≡ false) ↔ (t ≢ [])
unfolding is_empty
is_empty_iff [] = (λ h. absurd cc, λ h. absurd (h refl))
is_empty_iff (c ∷ t) = (λ h e. cc, λ h. refl)

validate-IsUsable : (c : AppConfig) → validate c ≡ ok tt → IsUsable c
unfolding validate
validate-IsUsable c h = record {
  named = (is_empty_iff (trim c.display_name)).0 (ground arith);
  port_set = ground arith;
  bitrate_low = ground arith;
  bitrate_high = ground arith;
  framerate_low = ground arith;
  framerate_high = ground arith;
}

IsUsable-validate : (c : AppConfig) → IsUsable c → validate c ≡ ok tt
unfolding validate
IsUsable-validate c u = ground (
  arith,
  u.named,
  u.port_set,
  u.bitrate_low,
  u.bitrate_high,
  u.framerate_low,
  u.framerate_high,
  is_empty_iff (trim c.display_name),
)

-- `validate` lets a configuration through exactly when its name is not blank, its port is set, its
-- bit rate lies between 100 and 100000 and its frame rate between 1 and 240.
pub validate_iff : (c : AppConfig) → (validate c ≡ ok tt) ↔ IsUsable c
validate_iff c = (validate-IsUsable c, IsUsable-validate c)

validated-ok : (c : AppConfig) {d : AppConfig} → validated c ≡ ok d → (validate c ≡ ok tt) × (c ≡ d)
unfolding validated
validated-ok c {d} h = ground arith

bind-validated :
    (r : Result AppConfig Text) (f : AppConfig → AppConfig) (c : AppConfig)
    → (r >>= λ x. validated (f x)) ≡ ok c
    → IsUsable c
bind-validated (err e) f c h = absurd cc
bind-validated (ok x) f c h =
    let both = validated-ok (f x) h in subst IsUsable both.1 (validate-IsUsable (f x) both.0)

-- Whatever the file and the command line hold, the configuration that the receiver starts with is
-- usable.
pub startup_config-IsUsable :
    (hostname : Text) (file : ConfigFile) (name : Option Text) (port : Option ℕ) (c : AppConfig)
    → startup_config hostname file name port ≡ ok c
    → IsUsable c
unfolding startup_config
startup_config-IsUsable hostname file name port c h =
    bind-validated (load_or_create_at hostname file) (override_with name port) c h
