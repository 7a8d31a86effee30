-- ===== src/Miracast/Rtsp/Negotiate/Steps.antt =====
-- The steps of a negotiation that succeeds: what each sends, and where the counter stands.
use openplay.Prelude.{false}
use openplay.Prelude.{err, refl}
use openplay.Prelude.{
  some, ok, true, [], List, Text, ℕ, ◌≡◌, Bool, ◌++◌, ◌+◌, ◌%◌, ◌∷◌, ◌^◌, ◌∙◌, subst, Result, ap,
  arith, sym,
}
use openplay.Miracast.Rtsp.Connection.{
  RtspConnection, MiracastError, Rtsp, continue_on, next_cseq, send, read_message_within,
  read_response, read_request, read_message, Arrival, pure, message,
}
use openplay.Miracast.Rtsp.Message.{
  RtspRequest, RtspResponse, parse_transport_port, parse_request, parse_response,
}
use openplay.Miracast.Rtsp.Negotiate.{require, usable_port, WfdNegotiationResult}

continue_on-ok {ℓ κ} :
    {A : Type ℓ} {B : Type κ} (x : RtspConnection × Result A MiracastError) (f : A → Rtsp B)
    {c' : RtspConnection} {b : B}
    → continue_on x f ≡ (c', ok b)
    → (c : RtspConnection) × (a : A) × (x ≡ (c, ok a)) × (f a c ≡ (c', ok b))
unfolding continue_on
continue_on-ok (c, ok a) f h = (c, a, refl, h)
continue_on-ok (c, err e) f h = absurd (ground arith)

-- The messages that are read one after the other, from what was read ahead and what will come.
pub data Heard (buf : List ℕ) (arrivals : List Arrival)
    : List Text → List ℕ → List Arrival → Type 0 where
  nothing : Heard buf arrivals [] buf arrivals
  and_then :
      (ts : List Text) (b1 b2 : List ℕ) (a1 a2 : List Arrival) (t : Text)
      → Heard buf arrivals ts b1 a1
      → read_message b1 a1 ≡ (b2, a2, message t)
      → Heard buf arrivals (ts ++ (t ∷ [])) b2 a2

-- From one connection to another these messages were sent and these heard, and the counter stands at
-- `n`.
pub record Moves (c c' : RtspConnection) (messages : List Text) (heard : List Text) (n : ℕ)
    : Type 0 where
  pub sent : c'.sent ≡ c.sent ++ messages
  pub read : Heard c.buf c.arrivals heard c'.buf c'.arrivals
  pub cseq : c'.cseq ≡ n

append_nil : (a : List Text) → a ≡ a ++ []
append_nil [] = refl
append_nil (x ∷ a) = ap (◌∷◌ x) (append_nil a)

pub Moves-start : (c : RtspConnection) → Moves c c [] [] c.cseq
Moves-start c = record { sent = append_nil c.sent; read = nothing; cseq = refl }

pub ok_inj :
    {a b : WfdNegotiationResult} {x y : Result WfdNegotiationResult MiracastError}
    → x ≡ y
    → x ≡ ok a
    → y ≡ ok b
    → a ≡ b
ok_inj e f g = cc

-- What does not read leaves what is read ahead and what will come.
abbrev SameInput : (c c' : RtspConnection) → Type 0
SameInput c c' = (c'.buf ≡ c.buf) × (c'.arrivals ≡ c.arrivals)

Heard-same :
    (c c1 c2 : RtspConnection) {hs : List Text}
    → Heard c.buf c.arrivals hs c1.buf c1.arrivals
    → SameInput c1 c2
    → Heard c.buf c.arrivals hs c2.buf c2.arrivals
Heard-same c c1 c2 {hs} h same =
    subst (λ b. Heard c.buf c.arrivals hs b c2.arrivals) (sym same.0)
      (subst (Heard c.buf c.arrivals hs c1.buf) (sym same.1) h)

next_cseq-same :
    (c1 : RtspConnection) {c2 : RtspConnection} {k : ℕ}
    → next_cseq c1 ≡ (c2, ok k)
    → SameInput c1 c2
      × (c2.sent ≡ c1.sent)
      × (c2.cseq ≡ (c1.cseq + 1) % 2 ^ 32)
      × (k ≡ (c1.cseq + 1) % 2 ^ 32)
next_cseq-same c1 e = ground arith

after_next :
    {c c1 c2 : RtspConnection} {ms hs : List Text} {n k : ℕ}
    → Moves c c1 ms hs n
    → next_cseq c1 ≡ (c2, ok k)
    → Moves c c2 ms hs ((n + 1) % 2 ^ 32) × (k ≡ (n + 1) % 2 ^ 32)
after_next {c} {c1} {c2} m e =
    let (same, sent, cseq, number) = next_cseq-same c1 e in
    let counted = ap (λ n. (n + 1) % 2 ^ 32) m.cseq in
    (
      record { sent = sent ∙ m.sent; read = Heard-same c c1 c2 m.read same; cseq = cseq ∙ counted },
      number ∙ counted,
    )

append_texts : (a b c : List Text) → (a ++ b) ++ c ≡ a ++ (b ++ c)
append_texts [] b c = refl
append_texts (x ∷ a) b c = ap (◌∷◌ x) (append_texts a b c)

send-sent :
    (msg what : Text) (c c' : RtspConnection) {u : Unit {0}}
    → send msg what c ≡ (c', ok u)
    → (c'.sent ≡ c.sent ++ (msg ∷ [])) × (c'.cseq ≡ c.cseq) × SameInput c c'
unfolding send
send-sent msg what c c' e = ground arith

read_message_within-read :
    (millis : ℕ) (c c' : RtspConnection) {t : Text}
    → read_message_within millis c ≡ (c', ok t)
    → (c'.sent ≡ c.sent)
      × (c'.cseq ≡ c.cseq)
      × (read_message c.buf c.arrivals ≡ (c'.buf, c'.arrivals, message t))
unfolding read_message_within
read_message_within-read millis c c' e = ground arith

after_read :
    {c c1 c2 : RtspConnection} {ms hs : List Text} {n : ℕ} {t : Text} (millis : ℕ)
    → Moves c c1 ms hs n
    → read_message_within millis c1 ≡ (c2, ok t)
    → Moves c c2 ms (hs ++ (t ∷ [])) n
after_read {c1 = c1} {c2 = c2} millis m e =
    let (sent, cseq, read) = read_message_within-read millis c1 c2 e in
    record { sent = sent ∙ m.sent; read = and_then _ _ _ _ _ _ m.read read; cseq = cseq ∙ m.cseq }

after_send :
    {c c1 c2 : RtspConnection} {ms hs : List Text} {n : ℕ} {u : Unit {0}} (msg what : Text)
    → Moves c c1 ms hs n
    → send msg what c1 ≡ (c2, ok u)
    → Moves c c2 (ms ++ (msg ∷ [])) hs n
after_send {c} {c1} {c2} {ms} msg what m e =
    let (sent, cseq, same) = send-sent msg what c1 c2 e in
    record {
      sent = sent ∙ ap (λ l. l ++ (msg ∷ [])) m.sent ∙ append_texts c.sent ms (msg ∷ []);
      read = Heard-same c c1 c2 m.read same;
      cseq = cseq ∙ m.cseq;
    }

ok_same {ℓ} :
    {A : Type ℓ} {c c' : RtspConnection} {a b : A}
    → ◌≡◌ {A = RtspConnection × Result A MiracastError} (c, ok a) (c', ok b)
    → b ≡ a
ok_same e = ground arith

-- A message that is read and parsed.
after_parsed :
    {P : Type 0} {c c1 c2 : RtspConnection} {ms hs : List Text} {n : ℕ} {r : P} (parse : Text → P)
    (millis : ℕ)
    → Moves c c1 ms hs n
    → continue_on (read_message_within millis c1) (λ raw. pure (parse raw)) ≡ (c2, ok r)
    → (raw : Text) × Moves c c2 ms (hs ++ (raw ∷ [])) n × (r ≡ parse raw)
after_parsed {P} {c} {c1} {c2} {ms} {hs} {n} {r} parse millis m e =
    let (c3, raw, read, done) = continue_on-ok (read_message_within millis c1) _ e in
    (
      raw,
      subst (λ d. Moves c d ms (hs ++ (raw ∷ [])) n) (ap (λ x. x.0) done)
          (after_read millis m read),
      ok_same done,
    )

after_require :
    {c c1 c2 : RtspConnection} {ms hs : List Text} {n : ℕ} {u : Unit {0}} (b : Bool) (reason : Text)
    → Moves c c1 ms hs n
    → require b reason c1 ≡ (c2, ok u)
    → Moves c c2 ms hs n × (b ≡ true)
unfolding require
after_require {c} {c1} {c2} {ms} {hs} {n} true reason m e =
    (subst (λ d. Moves c d ms hs n) (ap (λ x. x.0) e) m, refl)
after_require false reason m e = absurd (ground arith)

usable_port-some :
    {c1 c2 : RtspConnection} {port : ℕ} (headers : Text)
    → usable_port headers c1 ≡ (c2, ok port)
    → (c1 ≡ c2) × (parse_transport_port headers ≡ some port)
unfolding usable_port
usable_port-some headers e = ground arith

after_port :
    {c c1 c2 : RtspConnection} {ms hs : List Text} {n port : ℕ} (headers : Text)
    → Moves c c1 ms hs n
    → usable_port headers c1 ≡ (c2, ok port)
    → Moves c c2 ms hs n × (parse_transport_port headers ≡ some port)
after_port {c} {c1} {c2} {ms} {hs} {n} headers m e =
    let (same, found) = usable_port-some headers e in (subst (λ d. Moves c d ms hs n) same m, found)

-- The same steps in front of what follows them in a run that succeeds: what is to be shown may
-- be shown from the connection after the step.
module _ {κ μ} {B : Type κ} {R : Type μ} {c c1 c' : RtspConnection} {ms hs : List Text} {n : ℕ}
    {b : B} where
  pub next_then :
      (f : ℕ → Rtsp B)
      → Moves c c1 ms hs n
      → continue_on (next_cseq c1) f ≡ (c', ok b)
      → ((c2 : RtspConnection)
          → Moves c c2 ms hs ((n + 1) % 2 ^ 32)
          → f ((n + 1) % 2 ^ 32) c2 ≡ (c', ok b)
          → R)
      → R
  next_then f m h go =
      let (c2, k, e, rest) = continue_on-ok (next_cseq c1) f h in
      let (m', same) = after_next m e in go c2 m' (subst (λ k. f k c2 ≡ (c', ok b)) same rest)

  pub send_then :
      (msg what : Text) (f : Unit {0} → Rtsp B)
      → Moves c c1 ms hs n
      → continue_on (send msg what c1) f ≡ (c', ok b)
      → ((c2 : RtspConnection) → Moves c c2 (ms ++ (msg ∷ [])) hs n → f tt c2 ≡ (c', ok b) → R)
      → R
  send_then msg what f m h go =
      let (c2, u, e, rest) = continue_on-ok (send msg what c1) f h in
      go c2 (after_send msg what m e) rest

  pub response_then :
      (millis : ℕ) (f : RtspResponse → Rtsp B)
      → Moves c c1 ms hs n
      → continue_on (read_response millis c1) f ≡ (c', ok b)
      → ((c2 : RtspConnection) (raw : Text)
          → Moves c c2 ms (hs ++ (raw ∷ [])) n
          → f (parse_response raw) c2 ≡ (c', ok b)
          → R)
      → R
  response_then millis f m h go =
      let (c2, r, e, rest) = continue_on-ok (read_response millis c1) f h in
      let (raw, m', parsed) = after_parsed parse_response millis m e in
      go c2 raw m' (subst (λ r. f r c2 ≡ (c', ok b)) parsed rest)

  pub request_then :
      (millis : ℕ) (f : RtspRequest → Rtsp B)
      → Moves c c1 ms hs n
      → continue_on (read_request millis c1) f ≡ (c', ok b)
      → ((c2 : RtspConnection) (raw : Text)
          → Moves c c2 ms (hs ++ (raw ∷ [])) n
          → f (parse_request raw) c2 ≡ (c', ok b)
          → R)
      → R
  request_then millis f m h go =
      let (c2, r, e, rest) = continue_on-ok (read_request millis c1) f h in
      let (raw, m', parsed) = after_parsed parse_request millis m e in
      go c2 raw m' (subst (λ r. f r c2 ≡ (c', ok b)) parsed rest)

  pub require_then :
      (t : Bool) (reason : Text) (f : Unit {0} → Rtsp B)
      → Moves c c1 ms hs n
      → continue_on (require t reason c1) f ≡ (c', ok b)
      → ((c2 : RtspConnection) → Moves c c2 ms hs n → t ≡ true → f tt c2 ≡ (c', ok b) → R)
      → R
  require_then t reason f m h go =
      let (c2, u, e, rest) = continue_on-ok (require t reason c1) f h in
      let (m', holds) = after_require t reason m e in go c2 m' holds rest

  pub port_then :
      (headers : Text) (f : ℕ → Rtsp B)
      → Moves c c1 ms hs n
      → continue_on (usable_port headers c1) f ≡ (c', ok b)
      → ((c2 : RtspConnection) (port : ℕ)
          → Moves c c2 ms hs n
          → parse_transport_port headers ≡ some port
          → f port c2 ≡ (c', ok b)
          → R)
      → R
  port_then headers f m h go =
      let (c2, port, e, rest) = continue_on-ok (usable_port headers c1) f h in
      let (m', found) = after_port headers m e in go c2 port m' found rest

pub pure_then {ℓ κ} :
    {A : Type ℓ} {B : Type κ} (a : A) (f : A → Rtsp B) (c : RtspConnection)
    {y : RtspConnection × Result B MiracastError}
    → continue_on (c, ok a) f ≡ y
    → f a c ≡ y
unfolding continue_on
pure_then a f c h = h
