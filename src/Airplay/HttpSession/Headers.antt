-- ===== src/Airplay/HttpSession/Headers.antt =====
-- The header block of the requests (crates/openplay-airplay/src/http_session.rs): the device's name
-- cannot add a line.
use openplay.Prelude.{zero, suc}
use openplay.Prelude.{
  false, refl, [], Text, any, is_control, ◌≡◌, ◌∷◌, arith, ℕ, ◌/◌, codes, ◌%◌, ◌++◌, ◌+◌, ◌∙◌, ap,
}
use openplay.Airplay.HttpSession.{
  header_safe_device_name, or_default_name, airplay_headers, stream_header,
}
use openplay.Prelude.Lines.{lines-crlf, any-without_controls, lines-empty}
use openplay.Prelude.Strings.{
  trim, trim_start, trim_end, without_controls, lines, decimal_onto, decimal,
}

any-trim_start : (t : Text) → any is_control t ≡ false → any is_control (trim_start t) ≡ false
unfolding trim_start
any-trim_start [] h = refl
any-trim_start (c ∷ t) h = ground (arith, any-trim_start t)

any-trim_end : (t : Text) → any is_control t ≡ false → any is_control (trim_end t) ≡ false
unfolding trim_end
any-trim_end [] h = refl
any-trim_end (c ∷ t) h = ground (arith, any-trim_end t)

or_default_name-printable :
    (t : Text) → any is_control t ≡ false → any is_control (or_default_name t) ≡ false
unfolding or_default_name is_control
or_default_name-printable [] h = refl
or_default_name-printable (c ∷ t) h = h

header_safe_device_name-printable :
    (name : Text) → any is_control (header_safe_device_name name) ≡ false
unfolding header_safe_device_name trim
header_safe_device_name-printable name = or_default_name-printable (trim (without_controls name)) (
    any-trim_end (trim_start (without_controls name))
      (any-trim_start (without_controls name) (any-without_controls name)))

decimal_onto-printable :
    (fuel n : ℕ) (t : Text)
    → any is_control t ≡ false
    → any is_control (decimal_onto fuel n t) ≡ false
unfolding decimal_onto is_control
decimal_onto-printable zero n t h = ground arith
decimal_onto-printable (suc fuel) n t h =
    ground (arith, decimal_onto-printable fuel (n / 10) ((n % 10 + 0x30) ∷ t))

-- The four lines that both requests share.
shared-lines :
    (session_id name rest : Text)
    → any is_control session_id ≡ false
    → lines (airplay_headers session_id (header_safe_device_name name) rest)
      ≡ codes "User-Agent: AirPlay/550.10"
        ∷ (codes "X-Apple-Device-Name: " ++ header_safe_device_name name)
        ∷ (codes "X-Apple-Session-ID: " ++ session_id)
        ∷ codes "X-Apple-ProtocolVersion: 1"
        ∷ lines rest
unfolding airplay_headers is_control
shared-lines session_id name rest h =
    lines-crlf (codes "User-Agent: AirPlay/550.10") _ refl
    ∙ ap (λ t. codes "User-Agent: AirPlay/550.10" ∷ t)
        (lines-crlf (codes "X-Apple-Device-Name: " ++ header_safe_device_name name) _
            (header_safe_device_name-printable name)
          ∙ ap (λ t. (codes "X-Apple-Device-Name: " ++ header_safe_device_name name) ∷ t)
              (lines-crlf (codes "X-Apple-Session-ID: " ++ session_id) _ h
                ∙ ap (λ t. (codes "X-Apple-Session-ID: " ++ session_id) ∷ t)
                    (lines-crlf (codes "X-Apple-ProtocolVersion: 1") rest refl)))

-- The lines behind them.
body-lines :
    (body_length : ℕ)
    → lines (
        codes "Content-Type: application/x-apple-binary-plist\r\nContent-Length: "
        ++ (decimal body_length ++ codes "\r\n\r\n"))
      ≡ codes "Content-Type: application/x-apple-binary-plist"
        ∷ (codes "Content-Length: " ++ decimal body_length)
        ∷ []
        ∷ []
unfolding is_control
body-lines body_length =
    lines-crlf (codes "Content-Type: application/x-apple-binary-plist") _ refl
    ∙ ap (λ t. codes "Content-Type: application/x-apple-binary-plist" ∷ t)
        (lines-crlf (codes "Content-Length: " ++ decimal body_length) (13 ∷ 10 ∷ [])
            (decimal_onto-printable body_length body_length [] refl)
          ∙ ap (λ t. (codes "Content-Length: " ++ decimal body_length) ∷ t) lines-empty)

-- Whatever name is configured, line breaks included, the header block of POST /stream has exactly
-- these lines, the name's among them on one line, and then the empty line; the session id is a text
-- without control characters.
pub lines-stream_header :
    (session_id name : Text) (body_length : ℕ)
    → any is_control session_id ≡ false
    → lines (stream_header session_id name body_length)
      ≡ codes "POST /stream HTTP/1.1"
        ∷ codes "User-Agent: AirPlay/550.10"
        ∷ (codes "X-Apple-Device-Name: " ++ header_safe_device_name name)
        ∷ (codes "X-Apple-Session-ID: " ++ session_id)
        ∷ codes "X-Apple-ProtocolVersion: 1"
        ∷ codes "Content-Type: application/x-apple-binary-plist"
        ∷ (codes "Content-Length: " ++ decimal body_length)
        ∷ []
        ∷ []
unfolding stream_header is_control
lines-stream_header session_id name body_length h =
    lines-crlf (codes "POST /stream HTTP/1.1") _ refl
    ∙ ap (λ t. codes "POST /stream HTTP/1.1" ∷ t)
        (shared-lines session_id name _ h
          ∙ ap
              (λ t.
                codes "User-Agent: AirPlay/550.10"
                ∷ (codes "X-Apple-Device-Name: " ++ header_safe_device_name name)
                ∷ (codes "X-Apple-Session-ID: " ++ session_id)
                ∷ codes "X-Apple-ProtocolVersion: 1"
                ∷ t)
              (body-lines body_length))
