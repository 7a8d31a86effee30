-- ===== src/Airplay/Pairing/Http/Sent.antt =====
-- crates/openplay-airplay/src/hap_pairing.rs: what a request puts on the wire.
use openplay.Prelude.{ok, [], Text, ◌≡◌, List, arith, ℕ, length, ◌++◌, sym, ◌∷◌, ap, ◌∙◌}
use openplay.Prelude.Utf8.{as_bytes}
use mathlib.Core.List.{append_assoc}
use openplay.Airplay.Stream.{TcpStream, write_all, flush}
use openplay.Airplay.Pairing.Steps.{step_then}
use openplay.Airplay.Pairing.Http.{write, send_post, post_header, recv_response}

-- What a request writes: its header, then its body.
abbrev pub request : (path content_type : Text) (body : List ℕ) → List (List ℕ)
request path content_type body = as_bytes (post_header path content_type (length body)) ∷ body ∷ []

write-sent :
    (bytes : List ℕ) (s : TcpStream) {s' : TcpStream} {u : Unit {0}}
    → write bytes s ≡ (s', ok u)
    → s'.sent ≡ s.sent ++ (bytes ∷ [])
unfolding write write_all
write-sent bytes s h = ground arith

flush-sent : (s : TcpStream) → (flush s).sent ≡ s.sent
unfolding flush
flush-sent s = ground arith

pub send_post-sent :
    (path content_type : Text) (body : List ℕ) (s : TcpStream) {s' : TcpStream} {u : Unit {0}}
    → send_post path content_type body s ≡ (s', ok u)
    → s'.sent ≡ s.sent ++ request path content_type body
unfolding send_post
send_post-sent path content_type body s h0 = step_then _ _ h0 λ s1 d1 e1 h1.
    step_then _ _ h1 λ s2 d2 e2 h2.
      sym (ap (λ r. r.0.sent) h2)
      ∙ flush-sent s2
      ∙ write-sent body s1 e2
      ∙ ap (λ sent. sent ++ (body ∷ [])) (write-sent _ s e1)
      ∙ append_assoc s.sent (as_bytes (post_header path content_type (length body)) ∷ [])
          (body ∷ [])

pub recv_response-sent :
    (s : TcpStream) {s' : TcpStream} {bytes : List ℕ}
    → recv_response s ≡ (s', ok bytes)
    → s'.sent ≡ s.sent
unfolding recv_response
recv_response-sent s h = sym (ap (λ r. r.0.sent) h)
