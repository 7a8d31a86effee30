-- ===== src/Airplay/ControlChannel/Examples.antt =====
-- Runs of the control channel over a stand-in for the cipher, and the theorems at concrete inputs.
use openplay.Prelude.Utf8.{lossy_from}
use openplay.Prelude.Strings.{
  is_some, strip_prefix, find, lower, nth, close_lines, split_by, from_str_radix, to_digit, trim,
  digits_value, is_whitespace,
}
use openplay.Prelude.Search.{find_subslice}
use openplay.Prelude.{ok, refl}
use openplay.Prelude.{
  some, [], replicate, List, arith, ℕ, ◌++◌, ap, codes, drop, ◌∷◌, length, ◌≡◌, ◌+◌, ◌<◌, sym, ◌^◌,
  ◌∙◌,
}
use openplay.Airplay.Stream.{TcpStream, write_all}
use openplay.Airplay.ControlChannel.{
  Aead, IsAead, ControlChannel, nonce_for, send, request, send_sealed, is_complete, find_header_end,
  write_frame, content_length, continue_on,
}
use openplay.Airplay.ControlChannel.Frames.{
  send_all, read_up_to, recv_all-send_all, Arrives, joined, PeerOf,
}
use openplay.Airplay.ControlChannel.Nonces.{send_all-fresh_nonce, IsSealed, AreDistinct}
use openplay.Airplay.ControlChannel.Request.{request-response, CompletesAt}

-- The tag is 16 bytes in front of the message.
abbrev toy : Aead
toy = record {
  encrypt = λ key nonce aad msg. some (replicate 16 1 ++ msg);
  decrypt = λ key nonce aad sealed. some (drop 16 sealed);
  hkdf_expand = λ salt ikm info len. some (replicate len 3);
}

some_injective : {a b : List ℕ} → some a ≡ some b → a ≡ b
some_injective e = ground arith

toy-IsAead : IsAead toy
toy-IsAead = record {
  length_lem = λ key nonce aad msg sealed h. ap length (sym (some_injective h)) ∙ omega arith;
  decrypt-encrypt =
      λ key nonce aad msg sealed h. ap (λ t. some (drop 16 t)) (some_injective (sym h));
}

abbrev silent : List ℕ → TcpStream
silent incoming = record { incoming = incoming; arrivals = []; turns = []; writes = []; sent = [] }

abbrev channel : List ℕ → ControlChannel
channel incoming = record {
  stream = silent incoming;
  write_cipher = replicate 32 3;
  read_cipher = replicate 32 3;
  write_counter = 0;
  read_counter = 0;
}

abbrev parts : List (List ℕ)
parts = codes "HTTP/1.1 200 OK\r\nContent-Length: 3\r\n" ∷ codes "\r\na" ∷ codes "bc" ∷ []

abbrev answered : ControlChannel
answered = (send_all toy parts (channel [])).0

abbrev wire : List ℕ
wire = joined answered.stream.sent

abbrev asked : ControlChannel
asked = (send toy (codes "GET /info") (channel (wire ++ (9 ∷ [])))).0

ask : send toy (codes "GET /info") (channel (wire ++ (9 ∷ []))) ≡ (asked, ok tt)
unfolding send send_sealed write_frame write_all nonce_for
ask = refl

answer : send_all toy parts (channel []) ≡ (answered, ok tt)
unfolding send_all send send_sealed write_frame write_all nonce_for continue_on
answer = refl

asked-peer : PeerOf (channel []) asked
unfolding send send_sealed write_frame write_all nonce_for
asked-peer = (refl, refl)

asked-incoming : asked.stream.incoming ≡ wire ++ (9 ∷ [])
unfolding send send_sealed write_frame write_all nonce_for
asked-incoming = refl

parts-CompletesAt : CompletesAt [] parts
unfolding CompletesAt is_complete find_header_end content_length find_subslice is_some strip_prefix
    find lower nth close_lines split_by lossy_from from_str_radix to_digit trim digits_value
    is_whitespace
parts-CompletesAt = (refl, (refl, refl))

request-response_example :
    request toy (codes "GET /info") (channel (wire ++ (9 ∷ [])))
    ≡ (read_up_to asked (9 ∷ []) answered.write_counter, ok (joined parts))
request-response_example =
    request-response toy toy-IsAead (codes "GET /info") (channel (wire ++ (9 ∷ []))) (channel [])
      parts (9 ∷ []) ask asked-peer refl answer asked-incoming parts-CompletesAt

recv_all-send_all_example : Arrives toy parts (channel []) answered
recv_all-send_all_example = recv_all-send_all toy toy-IsAead parts (channel []) answer

small : (channel []).write_counter + length parts < 2 ^ 64
small = omega arith

send_all-fresh_nonce_example :
    (nonces : List (List ℕ)) × (writes : List (List ℕ)) × (answered.stream.sent
      ≡ (channel []).stream.sent ++ writes)
    × IsSealed toy (channel []).write_cipher nonces parts writes
    × AreDistinct nonces
send_all-fresh_nonce_example = send_all-fresh_nonce toy parts (channel []) answer small
