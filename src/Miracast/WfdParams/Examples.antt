-- ===== src/Miracast/WfdParams/Examples.antt =====
-- Runs of the WFD parameter functions, and their theorems at concrete inputs.
use openplay.Prelude.{some, refl, codes, ◌≡◌, arith}
use openplay.Miracast.WfdParams.{
  encode, parse, default_formats, format_fields, negotiate_resolution, best_mode, supports,
  WfdVideoFormats, parse_ports, parse_ports_parts, res_720x480_p60,
}
use openplay.Miracast.WfdParams.RoundTrip.{parse-encode}
use openplay.Miracast.WfdParams.Resolution.{negotiate_resolution-first_shared, first_shared, ladder}
use openplay.Prelude.Strings.{
  hex_fixed, hex_digit, drop_empty, split_by, is_whitespace, from_str_radix, digits_value, to_digit,
}

encode-default :
    encode default_formats ≡ codes "00 00 01 10 000000A0 00000000 00000000 00 0000 0000 11"
unfolding encode format_fields hex_fixed hex_digit
encode-default = refl

parse_ports-sample :
    parse_ports (codes "RTP/AVP/UDP;unicast 19000 0 mode=play")
    ≡ some (record {
      profile = codes "RTP/AVP/UDP;unicast";
      rtp_port0 = 19000;
      rtp_port1 = 0;
      mode = codes "mode=play";
    })
unfolding parse_ports parse_ports_parts drop_empty split_by is_whitespace from_str_radix
    digits_value to_digit
parse_ports-sample = refl

parse-encode_example : parse (encode default_formats) ≡ some default_formats
parse-encode_example = parse-encode default_formats (
  omega arith,
  (
    omega arith,
    (
      omega arith,
      (
        omega arith,
        (
          omega arith,
          (
            omega arith,
            (omega arith, (omega arith, (omega arith, (omega arith, (omega arith, tt))))),
          ),
        ),
      ),
    ),
  ),
)

-- A sink that can only show 720x480.
abbrev small_sink : WfdVideoFormats
small_sink = record default_formats { cea_resolutions = res_720x480_p60 }

abbrev small_source : WfdVideoFormats
small_source = record default_formats { cea_resolutions = 162 }

negotiate_resolution-first_shared_example :
    negotiate_resolution small_source small_sink
    ≡ first_shared small_source.cea_resolutions small_sink.cea_resolutions ladder
negotiate_resolution-first_shared_example =
    negotiate_resolution-first_shared small_source small_sink

negotiate_resolution-small : negotiate_resolution small_source small_sink ≡ (720, 480, 60)
unfolding negotiate_resolution best_mode supports
negotiate_resolution-small = refl
