-- ===== src/Miracast/Rtsp/Framing.antt =====
-- Where a message ends does not depend on how the bytes arrive.
use openplay.Prelude.Utf8.{from_utf8_lossy}
use openplay.Prelude.Search.{find_subslice, crlf_crlf, find_subslice-bound, find_subslice-append}
use openplay.Miracast.Rtsp.Message.{framed_message_len}
use openplay.Prelude.{
  none, some, inl, inr, refl, [], List, ℕ, Text, ◌++◌, length, ◌≡◌, ◌≤◌, arith, Option-cases, drop,
  ◌⊎◌, take, ◌∷◌, codes, length-append, ap, sym, subst, take-append_le, ◌∙◌, drop-append_le,
}
use openplay.Miracast.Rtsp.Connection.{
  Arrival, silence, read_error, chunk, Reading, message, broken, timed_out, front, read_message,
  rtsp,
}

-- More bytes behind a whole message do not change where it ends.
framed_message_len-append :
    (buf more : List ℕ) {n : ℕ}
    → framed_message_len buf ≡ some n
    → framed_message_len (buf ++ more) ≡ some n
unfolding framed_message_len
framed_message_len-append buf more {n} h = elim (Option-cases (find_subslice buf crlf_crlf)) [
  | inl miss ↦ absurd (ground arith)
  | inr (m, hit) ↦
      let bound = find_subslice-bound buf crlf_crlf hit in
      ground (
        arith,
        find_subslice-append buf more crlf_crlf hit,
        take-append_le m buf more (omega arith),
        length-append buf more,
      )
]

pub framed_message_len-le :
    (buf : List ℕ) {n : ℕ} → framed_message_len buf ≡ some n → n ≤ length buf
unfolding framed_message_len
framed_message_len-le buf {n} h = ground arith

pub front-message :
    (buf : List ℕ) {n : ℕ}
    → framed_message_len buf ≡ some n
    → front buf ≡ some (drop n buf, message (from_utf8_lossy (take n buf)))
unfolding front
front-message buf h = ground arith

front_unframed :
    (buf : List ℕ)
    → framed_message_len buf ≡ none
    → (front buf ≡ none) ⊎ (front buf ≡ some (buf, broken (rtsp (codes "RTSP message too large"))))
unfolding front
front_unframed buf h = ground arith

-- The bytes that are still to come before the stream ends or breaks, silences left out.
abbrev pub stream : List Arrival → List ℕ
stream [] = []
stream (silence ∷ rest) = stream rest
stream (read_error e ∷ rest) = stream rest
stream (chunk bytes ∷ rest) = bytes ++ stream rest

-- A text is the first message of the bytes, and so much is left behind it.
pub record IsFirst (bytes : List ℕ) (m : Text) (left : List ℕ) : Type 0 where
  pub end : ℕ
  pub framed : framed_message_len bytes ≡ some end
  pub text : m ≡ from_utf8_lossy (take end bytes)
  pub rest : left ≡ drop end bytes

IsFirst-front :
    (buf more : List ℕ) {n : ℕ}
    → framed_message_len buf ≡ some n
    → IsFirst (buf ++ more) (from_utf8_lossy (take n buf)) (drop n buf ++ more)
IsFirst-front buf more {n} h = record {
  end = n;
  framed = framed_message_len-append buf more h;
  text = ap from_utf8_lossy (sym (take-append_le n buf more (framed_message_len-le buf h)));
  rest = sym (drop-append_le n buf more (framed_message_len-le buf h));
}

-- What a reading says of the bytes that it started from.
abbrev pub Says : List ℕ → List ℕ × List Arrival × Reading → Type 0
Says bytes (buf, arrivals, message m) = IsFirst bytes m (buf ++ stream arrivals)
Says bytes (buf, arrivals, _) = Unit {0}

front-Says :
    (buf : List ℕ) (arrivals : List Arrival) {x : List ℕ × Reading}
    → front buf ≡ some x
    → Says (buf ++ stream arrivals) (x.0, arrivals, x.1)
front-Says buf arrivals {x} h = elim (Option-cases (framed_message_len buf)) [
  | inr (n, whole) ↦
      subst (λ y. Says (buf ++ stream arrivals) (y.0, arrivals, y.1))
        (some_inj (sym (front-message buf whole) ∙ h)) (IsFirst-front buf (stream arrivals) whole)
  | inl part ↦ elim (front_unframed buf part) [
    | inl miss ↦ absurd (ground arith)
    | inr large ↦
        subst (λ y. Says (buf ++ stream arrivals) (y.0, arrivals, y.1)) (some_inj (sym large ∙ h))
          tt
  ]
]
  where
    some_inj : {a b : List ℕ × Reading} → some a ≡ some b → a ≡ b
    some_inj e = cc

pub read_message-front :
    (buf : List ℕ) (arrivals : List Arrival) {x : List ℕ × Reading}
    → front buf ≡ some x
    → read_message buf arrivals ≡ (x.0, arrivals, x.1)
unfolding read_message
read_message-front buf [] h = ground arith
read_message-front buf (a ∷ rest) h = ground arith

append_chunk : (buf bytes rest : List ℕ) → (buf ++ bytes) ++ rest ≡ buf ++ (bytes ++ rest)
append_chunk [] bytes rest = refl
append_chunk (b ∷ buf) bytes rest = ap (◌∷◌ b) (append_chunk buf bytes rest)

unfoldable pub read_message_on : List ℕ → Arrival → List Arrival → List ℕ × List Arrival × Reading
read_message_on buf silence rest = (buf, rest, timed_out)
read_message_on buf (read_error e) rest = (buf, rest, broken (rtsp (codes "Read error: " ++ e)))
read_message_on buf (chunk []) rest = (buf, rest, broken (rtsp (codes "Connection closed")))
read_message_on buf (chunk (b ∷ bs)) rest = read_message (buf ++ (b ∷ bs)) rest

pub read_message-on :
    (buf : List ℕ) (a : Arrival) (rest : List Arrival)
    → front buf ≡ none
    → read_message buf (a ∷ rest) ≡ read_message_on buf a rest
unfolding read_message read_message_on
read_message-on buf silence rest h = ground arith
read_message-on buf (read_error e) rest h = ground arith
read_message-on buf (chunk []) rest h = ground arith
read_message-on buf (chunk (b ∷ bs)) rest h = ground arith

pub read_message-end :
    (buf : List ℕ) → front buf ≡ none → read_message buf [] ≡ (buf, [], timed_out)
unfolding read_message
read_message-end buf h = ground arith

-- A message that is read is the first message of the whole stream, in whatever pieces that comes:
-- its bytes are those in front of the end that `framed_message_len` finds in all that has come and
-- will come, and exactly what follows it is left for the next read.
pub read_message-stream :
    (buf : List ℕ) (arrivals : List Arrival)
    → Says (buf ++ stream arrivals) (read_message buf arrivals)
read_message-stream buf [] = elim (Option-cases (front buf)) [
  | inr (x, hit) ↦
      subst (Says (buf ++ [])) (sym (read_message-front buf [] hit)) (front-Says buf [] hit)
  | inl miss ↦ subst (Says (buf ++ [])) (sym (read_message-end buf miss)) tt
]
read_message-stream buf (a ∷ rest) = elim (Option-cases (front buf)) [
  | inr (x, hit) ↦
      subst (Says (buf ++ stream (a ∷ rest))) (sym (read_message-front buf (a ∷ rest) hit))
        (front-Says buf (a ∷ rest) hit)
  | inl miss ↦
      subst (Says (buf ++ stream (a ∷ rest))) (sym (read_message-on buf a rest miss))
        (on a (λ b bs. read_message-stream (buf ++ (b ∷ bs)) rest))
]
  where
    Later : Type 0
    Later =
        (b : ℕ) (bs : List ℕ)
        → Says ((buf ++ (b ∷ bs)) ++ stream rest) (read_message (buf ++ (b ∷ bs)) rest)

    on : (a : Arrival) → Later → Says (buf ++ stream (a ∷ rest)) (read_message_on buf a rest)
    on silence later = unfold read_message_on in tt
    on (read_error e) later = unfold read_message_on in tt
    on (chunk []) later = unfold read_message_on in tt
    on (chunk (b ∷ bs)) later =
        unfold read_message_on in
        subst (λ bytes. Says bytes (read_message (buf ++ (b ∷ bs)) rest))
          (append_chunk buf (b ∷ bs) (stream rest)) (later b bs)
