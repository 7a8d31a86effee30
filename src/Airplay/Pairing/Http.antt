-- ===== src/Airplay/Pairing/Http.antt =====
-- crates/openplay-airplay/src/hap_pairing.rs: the HTTP requests that carry the pairing messages.
pub mod Body
pub mod Chunks
pub mod Sent
use openplay.Prelude.{
  none, some, ok, err, [], if◌then◌else◌, ℕ, List, Text, Option, ltb, length, codes, take, Result,
  ◌-◌, ◌∷◌, ◌++◌, ◌+◌, leb, ◌^◌, drop, max, ◌*◌, ◌&&◌, ◌==◌, ◌%◌,
}
use openplay.Prelude.Utf8.{from_utf8_lossy, as_bytes}
use openplay.Prelude.Search.{find_subslice, crlf_crlf}
use openplay.Prelude.Strings.{
  lines, split_whitespace, nth, or_else, and_then, parse_number, strip_prefix, trim, decimal,
}
use openplay.Airplay.Stream.{TcpStream, Arrival, ready, read_error, read_length, write_all, flush}
use openplay.Airplay.Pairing.{
  HapError, Hap, continue_on, lift, ◌>>=◌, ◌>>◌, io_failed, no_answer, empty_response,
  connection_closed, http_status, closed_mid_body,
}

abbrev pub hkp_transient : ℕ
hkp_transient = 4

unfoldable pub write : List ℕ → Hap (Unit {0})
write bytes s = let (s', done) = write_all bytes s in (s', if done then ok tt else err io_failed)

unfoldable pub post_header : (path content_type : Text) (body_length : ℕ) → Text
post_header path content_type body_length =
    codes "POST "
    ++ path
    ++ codes " HTTP/1.1\r\n"
    ++ codes "X-Apple-HKP: "
    ++ decimal hkp_transient
    ++ codes "\r\nContent-Type: "
    ++ content_type
    ++ codes "\r\nContent-Length: "
    ++ decimal body_length
    ++ codes "\r\n\r\n"

unfoldable pub send_post : (path content_type : Text) (body : List ℕ) → Hap (Unit {0})
send_post path content_type body = do
  write (as_bytes (post_header path content_type (length body)))
  write body
  λ s. (flush s, ok tt)

unfoldable pub check_http_status : Text → Result (Unit {0}) HapError
check_http_status headers = elim (nth 0 (lines headers)) [
  | none ↦ err empty_response
  | some status_line ↦ elim (and_then (nth 1 (split_whitespace status_line)) (parse_number 65535)) [
    | none ↦ ok tt
    | some code ↦ if leb 200 code && ltb code 300 then ok tt else err (http_status code)
  ]
]

unfoldable pub header_value : Text → Option Text
header_value line = elim (strip_prefix (codes "Content-Length: ") line) [
  | some value ↦ some value
  | none ↦ strip_prefix (codes "content-length: ") line
]

unfoldable pub content_length_of : List Text → Option ℕ
content_length_of [] = none
content_length_of (line ∷ rest) =
    let later = content_length_of rest in
    elim (header_value line) [ some value ↦ parse_number (2 ^ 64 - 1) (trim value) | none ↦ later ]

unfoldable pub parse_content_length : Text → Option ℕ
unfolding content_length_of
parse_content_length header = content_length_of (lines header)

-- `buf[..total]`, and what is left of the stream's script.
abbrev pub Received : Type 0
Received = List ℕ × List Arrival × Result (List ℕ) HapError

-- The inner loop; `size` is the length of the buffer, `got` its part that was filled.
unfoldable pub read_body :
    (size body_start content_length : ℕ) (got incoming : List ℕ) → List Arrival → Received
read_body size body_start content_length got incoming [] =
    if ltb (length got - body_start) content_length
    then (incoming, [], err no_answer)
    else (incoming, [], ok (take content_length (drop body_start got)))
read_body size body_start content_length got incoming (read_error ∷ rest) =
    if ltb (length got - body_start) content_length
    then (incoming, rest, err io_failed)
    else (incoming, read_error ∷ rest, ok (take content_length (drop body_start got)))
read_body size body_start content_length got incoming (ready count ∷ rest) =
    let n = read_length count (size - length got) incoming in
    let more =
      read_body size body_start content_length (got ++ take n incoming) (drop n incoming) rest in
    if ltb (length got - body_start) content_length
    then if n == 0 then (incoming, rest, err closed_mid_body) else more
    else (incoming, ready count ∷ rest, ok (take content_length (drop body_start got)))

-- The sum that sizes the buffer is a usize and wraps.
unfoldable pub read_after :
    (size body_start content_length : ℕ) (got incoming : List ℕ)
    → List Arrival
    → Result (Unit {0}) HapError
    → Received
read_after size body_start content_length got incoming rest (err e) = (incoming, rest, err e)
read_after size body_start content_length got incoming rest (ok _) =
    read_body (max size ((body_start + content_length) % 2 ^ 64)) body_start content_length got
      incoming rest

-- The headers are complete.
unfoldable pub read_rest : (size header_end : ℕ) (got incoming : List ℕ) → List Arrival → Received
unfolding read_after
read_rest size header_end got incoming rest =
    let header_str = from_utf8_lossy (take header_end got) in
    read_after size (header_end + 4) (or_else (parse_content_length header_str) 0) got incoming rest
      (check_http_status header_str)

-- The outer loop.
unfoldable pub read_headers : (size : ℕ) (got incoming : List ℕ) → List Arrival → Received
read_headers size got incoming [] = (incoming, [], err no_answer)
read_headers size got incoming (a ∷ rest) = elim a [
  | read_error ↦ (incoming, rest, err io_failed)
  | ready count ↦
      let n = read_length count (size - length got) incoming in
      let got' = got ++ take n incoming in
      let more =
        read_headers (if leb size (length got') then size * 2 else size) got' (drop n incoming)
          rest in
      if n == 0
      then (incoming, rest, err connection_closed)
      else elim (find_subslice got' crlf_crlf) [
        | some header_end ↦ read_rest size header_end got' (drop n incoming) rest
        | none ↦ more
      ]
]

unfoldable pub recv_response : Hap (List ℕ)
recv_response s =
    let (incoming, arrivals, answer) = read_headers 8192 [] s.incoming s.arrivals in
    (record s { incoming = incoming; arrivals = arrivals }, answer)

abbrev pub octet_stream : Text
octet_stream = codes "application/octet-stream"

-- One message of pair-setup is sent and its answer awaited; likewise for pair-verify.
abbrev pub send_pair_setup : List ℕ → Hap (Unit {0})
send_pair_setup body = send_post (codes "/pair-setup") octet_stream body

abbrev pub recv_pair_setup : Hap (List ℕ)
recv_pair_setup = recv_response

abbrev pub send_pair_verify : List ℕ → Hap (Unit {0})
send_pair_verify body = send_post (codes "/pair-verify") octet_stream body

abbrev pub recv_pair_verify : Hap (List ℕ)
recv_pair_verify = recv_response
