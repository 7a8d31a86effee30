-- ===== src/Airplay/Ntp/Answer.antt =====
-- crates/openplay-airplay/src/ntp.rs: what a receiver finds in the answer to its query.
use openplay.Prelude.{zero, some, true}
use openplay.Prelude.{
  suc, refl, List, ℕ, ◌<◌, length, ◌*◌, ◌≡◌, ◌^◌, ◌+◌, ◌%◌, ◌/◌, drop, ◌≤◌, take, arith, ◌++◌, leb,
  length-take, ap, length-drop, length-append, sym, ◌∙◌, take-append_left, drop-append_left,
}
use Prim.Native.Nat.{bit_or}
use mathlib.Core.List.{append_assoc}
use openplay.Prelude.Strings.{nth}
use openplay.Prelude.Endian.{to_be_bytes, from_be_bytes, from_be_bytes-to_be_bytes, to_be_onto}
use openplay.Airplay.MirrorHeader.{slice}
use openplay.Airplay.Ntp.{ntp_packet_size, byte_at, build_ntp_response, answer}

-- A query that is answered: the answer has the size of a packet, speaks as a server in the version
-- of the client, returns the client's transmit time as the originate time, and bears the time of
-- the server as its reference, receive and transmit times.
pub record IsAnswerTo (query response : List ℕ) (now : ℕ) : Type 0 where
  pub sized : length response ≡ ntp_packet_size
  pub mode : byte_at 0 response % 8 ≡ 4
  pub version : byte_at 0 response / 8 ≡ byte_at 0 query / 8 % 8
  pub originate : slice 24 8 response ≡ slice 40 8 query
  pub receive : from_be_bytes (slice 32 8 response) ≡ now
  pub transmit : from_be_bytes (slice 40 8 response) ≡ now

mode_bits : (v : ℕ) → v < 8 → bit_or (v * 8) 4 ≡ v * 8 + 4
mode_bits zero h = refl
mode_bits (suc zero) h = refl
mode_bits (suc (suc zero)) h = refl
mode_bits (suc (suc (suc zero))) h = refl
mode_bits (suc (suc (suc (suc zero)))) h = refl
mode_bits (suc (suc (suc (suc (suc zero))))) h = refl
mode_bits (suc (suc (suc (suc (suc (suc zero)))))) h = refl
mode_bits (suc (suc (suc (suc (suc (suc (suc zero))))))) h = refl
mode_bits (suc (suc (suc (suc (suc (suc (suc (suc v)))))))) h = absurd (omega arith)

take-front : (n : ℕ) (front back : List ℕ) → length front ≡ n → take n (front ++ back) ≡ front
take-front n front back e = ap (λ k. take k (front ++ back)) (sym e) ∙ take-append_left front back

drop-front : (n : ℕ) (front back : List ℕ) → length front ≡ n → drop n (front ++ back) ≡ back
drop-front n front back e = ap (λ k. drop k (front ++ back)) (sym e) ∙ drop-append_left front back

build_ntp_response-IsAnswerTo :
    (request : List ℕ) (now : ℕ)
    → length request ≡ ntp_packet_size
    → now < 2 ^ 64
    → IsAnswerTo request (build_ntp_response request now) now
unfolding build_ntp_response to_be_onto nth
build_ntp_response-IsAnswerTo request now size fits = record {
  sized = omega (
    arith,
    length-append (transmit_time ++ now_bytes) now_bytes,
    length-append transmit_time now_bytes,
    eight,
  );
  mode = ap (λ b. b % 8) flags ∙ omega arith;
  version = ap (λ b. b / 8) flags ∙ omega arith;
  originate =
      ap (take 8) (append_assoc transmit_time now_bytes now_bytes)
      ∙ take-front 8 transmit_time (now_bytes ++ now_bytes) eight;
  receive =
      ap (λ t. from_be_bytes (take 8 (drop 8 t))) (append_assoc transmit_time now_bytes now_bytes)
      ∙ ap (λ t. from_be_bytes (take 8 t))
          (drop-front 8 transmit_time (now_bytes ++ now_bytes) eight)
      ∙ read;
  transmit =
      ap (λ t. from_be_bytes (take 8 t))
        (drop-front 16 (transmit_time ++ now_bytes) now_bytes
          (omega (arith, length-append transmit_time now_bytes, eight)))
      ∙ read;
}
  where
    transmit_time : List ℕ
    transmit_time = slice 40 8 request

    now_bytes : List ℕ
    now_bytes = to_be_bytes 8 now

    eight : length transmit_time ≡ 8
    eight = omega (arith, length-take 8 (drop 40 request), length-drop 40 request)

    flags : bit_or (byte_at 0 request / 8 % 8 * 8) 4 ≡ byte_at 0 request / 8 % 8 * 8 + 4
    flags = mode_bits (byte_at 0 request / 8 % 8) (omega arith)

    read : from_be_bytes (to_be_bytes 8 now) ≡ now
    read = from_be_bytes-to_be_bytes 8 now (omega arith)

-- A datagram that holds a whole query is answered, by the query in its first 48 bytes.
pub answer-IsAnswerTo :
    (datagram : List ℕ) (now : ℕ)
    → now < 2 ^ 64
    → ntp_packet_size ≤ length datagram
    → (response : List ℕ) × (answer datagram now ≡ some response)
      × IsAnswerTo (take ntp_packet_size datagram) response now
unfolding answer
answer-IsAnswerTo datagram now fits whole = (
  build_ntp_response (take ntp_packet_size datagram) now,
  rw is_whole refl,
  build_ntp_response-IsAnswerTo (take ntp_packet_size datagram) now
      (omega (arith, length-take ntp_packet_size datagram)) fits,
)
  where
    is_whole : leb ntp_packet_size (length datagram) ≡ true
    is_whole = ground arith
