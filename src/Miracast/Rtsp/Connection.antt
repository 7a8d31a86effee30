-- ===== src/Miracast/Rtsp/Connection.antt =====
-- crates/openplay-miracast/src/rtsp_server.rs: the connection, its buffer and its reads and
-- writes; crates/openplay-miracast/src/lib.rs: the errors. What the socket and the timers will do
-- is a script, `arrivals` and `writes`; when a script is over, the sink stays silent and every
-- write succeeds.
use openplay.Prelude.Utf8.{from_utf8_lossy}
use openplay.Miracast.Rtsp.Message.{
  framed_message_len, RtspRequest, RtspResponse, parse_request, parse_response,
}
use openplay.Prelude.{
  none, some, ok, err, [], if◌then◌else◌, Result, ℕ, List, Text, Option, ◌*◌, ◌+◌, ◌∷◌, ◌++◌, codes,
  ◌%◌, drop, ◌^◌, take, ltb, length,
}

pub data MiracastError : Type 0 where
  rtsp : Text → MiracastError
  rtsp_timeout : (millis : ℕ) → MiracastError
  negotiation connection_failed pipeline io : Text → MiracastError
  no_compatible_format session_closed : MiracastError

-- What a waiting read meets: bytes, the end of the stream (also an empty chunk), an error, or the
-- timer that cancels it.
pub data Arrival : Type 0 where
  chunk : List ℕ → Arrival
  read_error : Text → Arrival
  silence : Arrival

pub record RtspConnection : Type 0 where
  pub buf : List ℕ
  pub cseq : ℕ
  pub arrivals : List Arrival
  pub writes : List (Result (Unit {0}) Text)
  pub sent : List Text

-- `RtspConnection::new`, on the script of its stream.
abbrev pub new : List Arrival → List (Result (Unit {0}) Text) → RtspConnection
new arrivals writes = record { buf = []; cseq = 0; arrivals = arrivals; writes = writes; sent = [] }

abbrev pub Rtsp {ℓ} : Type ℓ → Type ℓ
Rtsp A = RtspConnection → RtspConnection × Result A MiracastError

module _ {ℓ κ} {A : Type ℓ} {B : Type κ} where
  unfoldable pub continue_on :
      RtspConnection × Result A MiracastError
      → (A → Rtsp B)
      → RtspConnection × Result B MiracastError
  continue_on (c, ok a) f = f a c
  continue_on (c, err e) f = (c, err e)

infixl 5 ◌>>=◌ ◌>>◌
abbrev pub ◌>>=◌ {ℓ κ} : {A : Type ℓ} {B : Type κ} → Rtsp A → (A → Rtsp B) → Rtsp B
m >>= f = λ c. continue_on (m c) f

abbrev pub ◌>>◌ {κ} : {B : Type κ} → Rtsp (Unit {0}) → Rtsp B → Rtsp B
m >> k = m >>= λ _. k

abbrev pub pure {ℓ} : {A : Type ℓ} → A → Rtsp A
pure a = λ c. (c, ok a)

-- The counter is a u32 and wraps.
abbrev pub next_cseq : Rtsp ℕ
next_cseq = λ c. let n = (c.cseq + 1) % 2 ^ 32 in (record c { cseq = n }, ok n)

unfoldable pub send : Text → Text → Rtsp (Unit {0})
send msg what c = elim c.writes [
  | [] ↦ (record c { sent = c.sent ++ (msg ∷ []) }, ok tt)
  | w ∷ ws ↦ elim w [
    | ok _ ↦ (record c { writes = ws; sent = c.sent ++ (msg ∷ []) }, ok tt)
    | err e ↦ (record c { writes = ws }, err (rtsp (codes "Send " ++ (what ++ (codes ": " ++ e)))))
  ]
]

abbrev pub max_message_bytes : ℕ
max_message_bytes = 64 * 1024

-- How a read ends: a message, an error, or the timer around it.
pub data Reading : Type 0 where
  message : Text → Reading
  broken : MiracastError → Reading
  timed_out : Reading

-- The top of the loop: a whole message in the buffer, a buffer that is too large, or more to read.
unfoldable pub front : List ℕ → Option (List ℕ × Reading)
unfolding framed_message_len
front buf = elim (framed_message_len buf) [
  | some len ↦ some (drop len buf, message (from_utf8_lossy (take len buf)))
  | none ↦
      if ltb max_message_bytes (length buf)
      then some (buf, broken (rtsp (codes "RTSP message too large")))
      else none
]

unfoldable pub read_message : List ℕ → List Arrival → List ℕ × List Arrival × Reading
read_message buf [] = elim (front buf) [
  | some (buf', r) ↦ (buf', [], r)
  | none ↦ (buf, [], timed_out)
]
read_message buf (a ∷ rest) = elim (front buf) [
  | some (buf', r) ↦ (buf', a ∷ rest, r)
  | none ↦ elim a [
    | silence ↦ (buf, rest, timed_out)
    | read_error e ↦ (buf, rest, broken (rtsp (codes "Read error: " ++ e)))
    | chunk bytes ↦ elim bytes [
      | [] ↦ (buf, rest, broken (rtsp (codes "Connection closed")))
      | b ∷ bs ↦ read_message (buf ++ (b ∷ bs)) rest
    ]
  ]
]

abbrev pub rtsp_read_timeout : ℕ
rtsp_read_timeout = 15000

unfoldable pub read_message_within : (millis : ℕ) → Rtsp Text
unfolding read_message
read_message_within millis c =
    let (buf', arrivals', r) = read_message c.buf c.arrivals in
    let c' = record c { buf = buf'; arrivals = arrivals' } in
    elim r [
      | message m ↦ (c', ok m)
      | broken e ↦ (c', err e)
      | timed_out ↦ (c', err (rtsp_timeout millis))
    ]

abbrev pub read_response : ℕ → Rtsp RtspResponse
read_response millis = do raw ← read_message_within millis; pure (parse_response raw)

abbrev pub read_request : ℕ → Rtsp RtspRequest
read_request millis = do raw ← read_message_within millis; pure (parse_request raw)
