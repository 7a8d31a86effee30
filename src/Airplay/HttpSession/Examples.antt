-- ===== src/Airplay/HttpSession/Examples.antt =====
-- Names with line breaks, and answers of receivers.
use openplay.Prelude.Strings.{
  lines, trim, split_by, without_controls, close_lines, is_whitespace, decimal, nth, drop_empty,
  from_str_radix, to_digit,
}
use openplay.Prelude.{false, refl, [], codes, is_control, ◌++◌, ◌≡◌, any, ◌∷◌, arith}
use openplay.Airplay.HttpSession.{
  header_safe_device_name, stream_header, status_is_success, after_stream, check_stream_answer,
  pair,
}
use openplay.Airplay.HttpSession.Headers.{lines-stream_header}
use openplay.Airplay.HttpSession.Status.{after_stream-status, status_line}

header_safe_device_name-injected :
    header_safe_device_name (codes "Laptop\r\nX-Injected: yes ") ≡ codes "LaptopX-Injected: yes"
unfolding header_safe_device_name trim without_controls is_control is_whitespace
header_safe_device_name-injected = refl

header_safe_device_name-blank : header_safe_device_name (codes "\r\n\t") ≡ codes "OpenPlay"
unfolding header_safe_device_name trim without_controls is_control is_whitespace
header_safe_device_name-blank = refl

status_is_success-later :
    status_is_success (codes "HTTP/1.1 500 Internal Server Error\r\nContent-Length: 1200") ≡ false
unfolding status_is_success lines split_by close_lines nth drop_empty is_whitespace from_str_radix
    to_digit
status_is_success-later = refl

not_found : any is_control (codes "Not Found") ≡ false
unfolding is_control
not_found = refl

printable : any is_control (codes "S1") ≡ false
unfolding is_control
printable = refl

lines-stream_header_example :
    lines (stream_header (codes "S1") (codes "a\r\nb: c") 7)
    ≡ codes "POST /stream HTTP/1.1"
      ∷ codes "User-Agent: AirPlay/550.10"
      ∷ (codes "X-Apple-Device-Name: " ++ header_safe_device_name (codes "a\r\nb: c"))
      ∷ (codes "X-Apple-Session-ID: " ++ codes "S1")
      ∷ codes "X-Apple-ProtocolVersion: 1"
      ∷ codes "Content-Type: application/x-apple-binary-plist"
      ∷ (codes "Content-Length: " ++ decimal 7)
      ∷ []
      ∷ []
lines-stream_header_example = lines-stream_header (codes "S1") (codes "a\r\nb: c") 7 printable

-- A Mac that is set to Everyone, without a password.
after_stream-status_example :
    after_stream (
      check_stream_answer
        (status_line 4 0 4 (codes "Not Found") ++ (13 ∷ 10 ∷ codes "Content-Length: 200\r\n")))
    ≡ pair
after_stream-status_example =
    after_stream-status 4 0 4 (omega arith) (omega arith) (omega arith) (codes "Not Found")
      (codes "Content-Length: 200\r\n") not_found
