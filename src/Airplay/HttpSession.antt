-- ===== src/Airplay/HttpSession.antt =====
-- crates/openplay-airplay/src/http_session.rs: the requests by which the sender negotiates a mirror
-- stream, what it reads of the answers, and (crates/openplay-airplay/src/session.rs) which failures
-- it meets by pairing. The binary plist of the stream's parameters (the plist library) is an argument.
pub mod Headers
pub mod Status
mod Examples
use openplay.Prelude.{
  none, some, ok, err, false, [], if◌then◌else◌, Result, Text, Option, List, codes, take, Bool,
  drop, ℕ, ◌∷◌, ◌++◌, length, ◌==◌, ◌+◌, leb, ◌&&◌, ◌||◌, ltb,
}
use openplay.Prelude.Strings.{
  without_controls, trim, decimal, lines, nth, or_else, and_then, split_whitespace, parse_number,
  strip_prefix,
}
use openplay.Prelude.Utf8.{as_bytes}
use openplay.Prelude.Search.{find_subslice}

abbrev pub default_device_name : Text
default_device_name = codes "OpenPlay"

unfoldable pub or_default_name : (cleaned : Text) → Text
or_default_name [] = default_device_name
or_default_name (c ∷ t) = c ∷ t

unfoldable pub header_safe_device_name : Text → Text
unfolding or_default_name
header_safe_device_name name = or_default_name (trim (without_controls name))

-- The header lines that both requests share, in front of the others.
unfoldable pub airplay_headers : (session_id device_name rest : Text) → Text
airplay_headers session_id device_name rest =
    codes "User-Agent: AirPlay/550.10\r\nX-Apple-Device-Name: "
    ++ (device_name
        ++ (codes "\r\nX-Apple-Session-ID: "
            ++ (session_id ++ (codes "\r\nX-Apple-ProtocolVersion: 1\r\n" ++ rest))))

unfoldable pub info_request : (session_id device_name : Text) → Text
unfolding airplay_headers header_safe_device_name
info_request session_id device_name =
    codes "GET /info HTTP/1.1\r\n"
    ++ airplay_headers session_id (header_safe_device_name device_name)
        (codes "Content-Length: 0\r\n\r\n")

unfoldable pub stream_header : (session_id device_name : Text) (body_length : ℕ) → Text
unfolding airplay_headers header_safe_device_name
stream_header session_id device_name body_length =
    codes "POST /stream HTTP/1.1\r\n"
    ++ airplay_headers session_id (header_safe_device_name device_name) (
        codes "Content-Type: application/x-apple-binary-plist\r\nContent-Length: "
        ++ (decimal body_length ++ codes "\r\n\r\n"))

unfoldable pub build_stream_request : (body : List ℕ) (session_id device_name : Text) → List ℕ
unfolding stream_header
build_stream_request body session_id device_name =
    as_bytes (stream_header session_id device_name (length body)) ++ body

-- The number of the status line, if its second word is one.
unfoldable pub status_of : Text → Option ℕ
status_of headers =
    and_then (and_then (nth 0 (lines headers)) (λ line. nth 1 (split_whitespace line)))
      (parse_number 65535)

unfoldable pub is_success : Option ℕ → Bool
is_success none = false
is_success (some code) = leb 200 code && ltb code 300

unfoldable pub status_is_success : Text → Bool
unfolding status_of is_success
status_is_success headers = is_success (status_of headers)

-- The end of `post_stream`, on the header block of the answer; an error is the message of
-- `AirPlayError::Negotiation`.
unfoldable pub check_stream_answer : Text → Result (Unit {0}) Text
unfolding status_is_success
check_stream_answer headers =
    if status_is_success headers
    then ok tt
    else err (
        codes "POST /stream failed: " ++ or_else (nth 0 (lines headers)) (codes "<no status line>"))

-- The text before the next `version`, given where that is.
unfoldable pub cut : Option ℕ → Text → Text
cut none rest = rest
cut (some m) rest = take m rest

unfoldable pub behind : (version : Text) → Option ℕ → (line : Text) → Option Text
unfolding cut
behind version none line = none
behind version (some n) line =
    let rest = drop (n + length version) line in some (cut (find_subslice rest version) rest)

-- `line.split(version).nth(1)`.
unfoldable pub after_version : (version line : Text) → Option Text
unfolding behind
after_version version line = behind version (find_subslice line version) line

unfoldable pub or_version : Option Text → (other : Option Text) → Option Text
or_version none other = other
or_version (some t) other = some t

unfoldable pub status_code : Text → Option ℕ
unfolding after_version or_version
status_code msg = and_then (nth 0 (lines msg)) (λ status_line.
    and_then
      (or_version (after_version (codes "HTTP/1.1") status_line)
        (after_version (codes "HTTP/1.0") status_line))
      (λ rest. and_then (nth 0 (split_whitespace rest)) (parse_number 65535)))

unfoldable pub is_auth_status : Option ℕ → Bool
is_auth_status none = false
is_auth_status (some code) =
    (code == 401) || (code == 403) || (code == 404) || (code == 470) || (code == 501)

unfoldable pub wants_authentication : Text → Bool
unfolding status_code is_auth_status
wants_authentication msg = is_auth_status (status_code msg)

-- What `run_session` does of an answer to POST /stream that came: go on, pair, or give up.
pub data AfterStream : Type 0 where
  mirror pair : AfterStream
  give_up : Text → AfterStream

unfoldable pub after_stream : Result (Unit {0}) Text → AfterStream
unfolding wants_authentication
after_stream (ok u) = mirror
after_stream (err msg) = if wants_authentication msg then pair else give_up msg
