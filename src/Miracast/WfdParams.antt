-- ===== src/Miracast/WfdParams.antt =====
-- crates/openplay-miracast/src/wfd_params.rs: the WFD parameters, their text forms and the choice
-- of a resolution.
pub mod RoundTrip
pub mod Resolution
mod Examples
use openplay.Prelude.Strings.{from_str_radix, split_whitespace, hex_fixed, parse_number, and_then}
use openplay.Prelude.{
  none, some, ℕ, Option, Text, if◌then◌else◌, List, Bool, ◌∷◌, ◌^◌, [], not, ◌==◌, ◌-◌, ◌++◌,
}
use Prim.Native.Nat.{bit_and}

-- The newtype's one field stands for it.
abbrev pub CeaResolutions : Type 0
CeaResolutions = ℕ

abbrev pub res_640x480_p60 : CeaResolutions
res_640x480_p60 = 1

abbrev pub res_720x480_p60 : CeaResolutions
res_720x480_p60 = 2

abbrev pub res_720x576_p50 : CeaResolutions
res_720x576_p50 = 8

abbrev pub res_1280x720_p30 : CeaResolutions
res_1280x720_p30 = 32

abbrev pub res_1280x720_p60 : CeaResolutions
res_1280x720_p60 = 64

abbrev pub res_1920x1080_p30 : CeaResolutions
res_1920x1080_p30 = 128

abbrev pub res_1920x1080_p60 : CeaResolutions
res_1920x1080_p60 = 256

unfoldable pub supports : CeaResolutions → ℕ → Bool
supports resolutions mask = not (bit_and resolutions mask == 0)

pub record WfdVideoFormats : Type 0 where
  pub native : ℕ
  pub preferred_display_mode : ℕ
  pub profile : ℕ
  pub level : ℕ
  pub cea_resolutions : CeaResolutions
  pub vesa_resolutions : ℕ
  pub hh_resolutions : ℕ
  pub latency : ℕ
  pub min_slice_size : ℕ
  pub slice_enc_params : ℕ
  pub frame_rate_ctrl : ℕ

abbrev pub default_formats : WfdVideoFormats
default_formats = record {
  native = 0;
  preferred_display_mode = 0;
  profile = 1;
  level = 0x10;
  cea_resolutions = 160;
  vesa_resolutions = 0;
  hh_resolutions = 0;
  latency = 0;
  min_slice_size = 0;
  slice_enc_params = 0;
  frame_rate_ctrl = 0x11;
}

-- The numbers with their widths in hexadecimal digits, in the order of the text.
abbrev pub fields : WfdVideoFormats → List (ℕ × ℕ)
fields f =
    (2, f.native)
    ∷ (2, f.preferred_display_mode)
    ∷ (2, f.profile)
    ∷ (2, f.level)
    ∷ (8, f.cea_resolutions)
    ∷ (8, f.vesa_resolutions)
    ∷ (8, f.hh_resolutions)
    ∷ (2, f.latency)
    ∷ (4, f.min_slice_size)
    ∷ (4, f.slice_enc_params)
    ∷ (2, f.frame_rate_ctrl)
    ∷ []

-- The `format!`: one space between two numbers.
unfoldable pub format_fields : List (ℕ × ℕ) → Text
format_fields [] = []
format_fields ((w, n) ∷ []) = hex_fixed w n
format_fields ((w, n) ∷ f ∷ fs) = hex_fixed w n ++ (0x20 ∷ format_fields (f ∷ fs))

unfoldable pub encode : WfdVideoFormats → Text
unfolding format_fields
encode f = format_fields (fields f)

-- `from_str_radix(part, 16)` into a type of `w` hexadecimal digits.
abbrev pub parse_hex : ℕ → Text → Option ℕ
parse_hex w t = from_str_radix 16 (16 ^ w - 1) t

infixl 5 ◌>>=◌
abbrev ◌>>=◌ {ℓ κ} : {A : Type ℓ} {B : Type κ} → Option A → (A → Option B) → Option B
o >>= f = and_then o f

unfoldable pub parse_parts : List Text → Option WfdVideoFormats
parse_parts (p0 ∷ p1 ∷ p2 ∷ p3 ∷ p4 ∷ p5 ∷ p6 ∷ p7 ∷ p8 ∷ p9 ∷ p10 ∷ more) = do
  native ← parse_hex 2 p0
  preferred_display_mode ← parse_hex 2 p1
  profile ← parse_hex 2 p2
  level ← parse_hex 2 p3
  cea_resolutions ← parse_hex 8 p4
  vesa_resolutions ← parse_hex 8 p5
  hh_resolutions ← parse_hex 8 p6
  latency ← parse_hex 2 p7
  min_slice_size ← parse_hex 4 p8
  slice_enc_params ← parse_hex 4 p9
  frame_rate_ctrl ← parse_hex 2 p10
  some (record {
    native = native;
    preferred_display_mode = preferred_display_mode;
    profile = profile;
    level = level;
    cea_resolutions = cea_resolutions;
    vesa_resolutions = vesa_resolutions;
    hh_resolutions = hh_resolutions;
    latency = latency;
    min_slice_size = min_slice_size;
    slice_enc_params = slice_enc_params;
    frame_rate_ctrl = frame_rate_ctrl;
  })
parse_parts _ = none

-- Fewer than eleven parts are refused.
unfoldable pub parse : Text → Option WfdVideoFormats
unfolding parse_parts
parse s = parse_parts (split_whitespace s)

pub record WfdClientRtpPorts : Type 0 where
  pub profile : Text
  pub rtp_port0 : ℕ
  pub rtp_port1 : ℕ
  pub mode : Text

unfoldable pub parse_ports_parts : List Text → Option WfdClientRtpPorts
parse_ports_parts (p0 ∷ p1 ∷ p2 ∷ p3 ∷ more) = do
  rtp_port0 ← parse_number 65535 p1
  rtp_port1 ← parse_number 65535 p2
  some (record { profile = p0; rtp_port0 = rtp_port0; rtp_port1 = rtp_port1; mode = p3 })
parse_ports_parts _ = none

unfoldable pub parse_ports : Text → Option WfdClientRtpPorts
unfolding parse_ports_parts
parse_ports s = parse_ports_parts (split_whitespace s)

-- A mode: width, height and frames per second.
abbrev pub Mode : Type 0
Mode = ℕ × ℕ × ℕ

unfoldable pub best_mode : CeaResolutions → Mode
unfolding supports
best_mode common_cea =
    if supports common_cea res_1920x1080_p60
    then (1920, 1080, 60)
    else if supports common_cea res_1920x1080_p30
    then (1920, 1080, 30)
    else if supports common_cea res_1280x720_p60
    then (1280, 720, 60)
    else if supports common_cea res_1280x720_p30
    then (1280, 720, 30)
    else if supports common_cea res_720x480_p60
    then (720, 480, 60)
    else (1280, 720, 30)

unfoldable pub negotiate_resolution : WfdVideoFormats → WfdVideoFormats → Mode
unfolding best_mode
negotiate_resolution source sink = best_mode (bit_and source.cea_resolutions sink.cea_resolutions)
