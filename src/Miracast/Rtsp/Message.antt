-- ===== src/Miracast/Rtsp/Message.antt =====
-- crates/openplay-miracast/src/rtsp_server.rs: where a message ends in the bytes of the
-- connection, and what requests and responses hold.
use openplay.Prelude.Utf8.{from_utf8_lossy}
use openplay.Prelude.Search.{find_subslice, crlf_crlf}
use openplay.Miracast.WfdParams.{WfdClientRtpPorts, WfdVideoFormats, parse, parse_ports}
use openplay.Prelude.Strings.{
  or_else, split_whitespace, strip_prefix, and_then, starts_with, nth, lines, find, parse_number,
  split, lower, trim,
}
use openplay.Prelude.{
  none, some, [], if◌then◌else◌, Text, ℕ, List, ◌∷◌, Option, Bool, take, drop, ◌+◌, codes, ◌^◌, map,
  ◌-◌, ◌%◌, leb, length,
}

pub record RtspResponse : Type 0 where
  pub code : ℕ
  pub status : Text
  pub headers : Text
  pub body : Text

pub record RtspRequest : Type 0 where
  pub method : Text
  pub uri : Text
  pub headers : Text
  pub body : Text
  pub cseq : ℕ

-- `l.to_lowercase().starts_with(name)`, for a name without `i` and `k`.
unfoldable pub is_header : Text → Text → Bool
is_header name l = starts_with name (map lower l)

-- The value of the first header of this name, as a number; 0 without one.
unfoldable pub header_number : (limit : ℕ) → Text → List Text → ℕ
unfolding is_header
header_number limit name ls =
    or_else
      (and_then (find (is_header name) ls)
        (λ l. and_then (nth 1 (split b':' l)) (λ v. parse_number limit (trim v))))
      0

-- The sum is a usize and wraps.
unfoldable pub framed_message_len : List ℕ → Option ℕ
unfolding header_number
framed_message_len buf = elim (find_subslice buf crlf_crlf) [
  | none ↦ none
  | some header_end ↦
      let total =
        (header_end
          + 4
          + header_number (2 ^ 64 - 1) (codes "content-length:")
              (lines (from_utf8_lossy (take header_end buf))))
        % 2 ^ 64 in
      if leb total (length buf) then some total else none
]

-- The header part and the body.
unfoldable pub split_header_body : Text → Text × Text
split_header_body raw = elim (find_subslice raw crlf_crlf) [
  | none ↦ (raw, [])
  | some pos ↦ (take pos raw, drop (pos + 4) raw)
]

abbrev first_line : Text → Text
first_line header_part = or_else (nth 0 (lines header_part)) []

unfoldable pub parse_response : Text → RtspResponse
unfolding split_header_body
parse_response raw =
    let (header_part, body) = split_header_body raw in
    let status = first_line header_part in
    record {
      code = or_else (and_then (nth 1 (split_whitespace status)) (parse_number 65535)) 0;
      status = status;
      headers = header_part;
      body = body;
    }

unfoldable pub parse_request : Text → RtspRequest
unfolding split_header_body header_number
parse_request raw =
    let (header_part, body) = split_header_body raw in
    let parts = split_whitespace (first_line header_part) in
    record {
      method = or_else (nth 0 parts) [];
      uri = or_else (nth 1 parts) [];
      headers = header_part;
      body = body;
      cseq = header_number (2 ^ 32 - 1) (codes "cseq:") (lines header_part);
    }

-- The value of the first line with this prefix.
unfoldable pub line_value : Text → List Text → Option Text
line_value prefix [] = none
line_value prefix (l ∷ ls) =
    let later = line_value prefix ls in
    elim (strip_prefix prefix l) [ none ↦ later | some v ↦ some v ]

unfoldable pub parse_sink_video_formats : Text → Option WfdVideoFormats
unfolding line_value
parse_sink_video_formats body =
    and_then (line_value (codes "wfd_video_formats:") (lines body)) (λ v. parse (trim v))

unfoldable pub parse_sink_rtp_ports : Text → Option WfdClientRtpPorts
unfolding line_value
parse_sink_rtp_ports body =
    and_then (line_value (codes "wfd_client_rtp_ports:") (lines body)) (λ v. parse_ports (trim v))

-- The first parameter of a transport line that is a usable client port.
unfoldable pub port_of_parts : List Text → Option ℕ
port_of_parts [] = none
port_of_parts (p ∷ ps) =
    let later = port_of_parts ps in
    elim (and_then (strip_prefix (codes "client_port=") (trim p))
      (λ v. parse_number 65535 (trim (or_else (nth 0 (split b'-' v)) [])))) [
        | none ↦ later
        | some port ↦ some port
      ]

abbrev strip_transport : Text → Option Text
strip_transport l = elim (strip_prefix (codes "Transport:") l) [
  | none ↦ strip_prefix (codes "transport:") l
  | some t ↦ some t
]

unfoldable pub transport_port : List Text → Option ℕ
unfolding port_of_parts
transport_port [] = none
transport_port (l ∷ ls) =
    let later = transport_port ls in
    elim (and_then (strip_transport l) (λ t. port_of_parts (split b';' t))) [
      | none ↦ later
      | some port ↦ some port
    ]

unfoldable pub parse_transport_port : Text → Option ℕ
unfolding transport_port
parse_transport_port headers = transport_port (lines headers)
