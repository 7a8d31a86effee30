-- ===== src/Airplay/Pairing/Examples.antt =====
-- Runs of a pairing over small stand-ins for the ciphers, and the theorems at concrete inputs.
use openplay.Airplay.Pairing.Setup.Proof.{IsProven}
use openplay.Airplay.Pairing.Setup.Identity.{IsAuthenticated, pair_setup-checks, IsExchange}
use openplay.Airplay.Pairing.Setup.{
  client_for, client_from, srp_result, check_proof, pair_setup_srp, m1_message, m3_message,
  pair_setup_username, pair_setup, pair_setup_identity_exchange, recv_message, client_for, seal,
  unseal, verify_signature, m5_sub_tlv, m5_message, device_info, accessory_info,
}
use openplay.Prelude.{none, false}
use openplay.Airplay.Pairing.Setup.Agreement.{m2_items, m4_items, idle}
use openplay.Airplay.Srp.{
  pad_to_n, group_n, multiplier, private_x, scrambler, proof_m1, proof_m2, xor_bytes, shared_u,
  client_compute, client_session, client_secret, is_zero_value,
}
use openplay.Airplay.Srp.Toy.{toy, server, salt, server_public, write_be, pin}
use openplay.Airplay.Srp.Server.{finish, new, server_secret}
use openplay.Prelude.Strings.{
  decimal_onto, decimal, is_some, strip_prefix, nth, close_lines, split_by, drop_empty,
  is_whitespace, from_str_radix, to_digit, trim, or_else, digits_value, trim_start, trim_end,
  push_front, strip_cr,
}
use openplay.Airplay.Pairing.Http.Body.{IsReady}
use openplay.Prelude.{
  zero, suc, some, ok, err, true, refl, [], ℕ, replicate, List, codes, ◌≡◌, ltb, ◌∷◌, leb, All, ◌≤◌,
  arith, ◌<◌, ◌++◌, length, Option, Result, Bool, ◌==◌, ◌+◌, ◌*◌, text_eq, ◌%◌, Text,
}
use openplay.Prelude.Utf8.{
  lossy_from, from_utf8_lossy, as_bytes, encode_utf8, next_byte, lead_byte, continue_with,
}
use openplay.Prelude.Endian.{from_le_bytes, to_le_bytes}
use openplay.Prelude.Search.{find_subslice, crlf_crlf}
use openplay.Airplay.Stream.{TcpStream, Arrival, ready, Turn, write_all, flush, read_length}
use openplay.Airplay.Tlv8.{
  Tlv8Item, item, item_u8, lookup, encode, encode_onto, encode_item, chunks, push_chunks, decode,
  decode_loop, merge,
}
use openplay.Airplay.Pairing.Verify.{
  pair_verify, server_info, client_info, verify_m3_sub_tlv, m1_message as verify_m1,
  m3_message as verify_m3,
}
use openplay.Airplay.Pairing.Verify.Identity.{IsVerified, pair_verify-after_setup}
use openplay.Airplay.Pairing.{
  paired_device_from, back_off, HapError, Crypto, PairSetupResult, continue_on, hkdf_derive,
  array_of, pairing_nonce,
}
use openplay.Airplay.Pairing.Http.{
  recv_response, check_http_status, parse_content_length, header_value, send_post, write,
  read_headers, read_rest, read_after, read_body, content_length_of, post_header,
}
use openplay.Airplay.Pairing.Http.Chunks.{IsAnswer, response, recv_response-whole}
use openplay.Airplay.Pairing.Items.{
  error_message, check_error, decode_items, tlv_result, check_state, first, error_of,
  retry_delay_secs, delay_of, required,
}
use openplay.Airplay.Pairing.Items.Errors.{check_error-back_off}

le_of : (a b : ℕ) → leb a b ≡ true → a ≤ b
le_of a b h = ground arith

lt_of : (a b : ℕ) → ltb a b ≡ true → a < b
lt_of a b h = ground arith

all_ready : (n : ℕ) → All IsReady (replicate n (ready 3))
unfolding IsReady
all_ready zero = tt
all_ready (suc n) = (omega arith, all_ready n)

abbrev head_of : List ℕ → List ℕ
head_of body = codes "HTTP/1.1 200 OK\r\nContent-Length: " ++ decimal (length body)

abbrev hello : List ℕ
hello = 1 ∷ 2 ∷ 3 ∷ []

hello-IsAnswer : IsAnswer (head_of hello) hello
unfolding find_subslice check_http_status parse_content_length decimal_onto is_some strip_prefix nth
    close_lines split_by lossy_from drop_empty is_whitespace from_str_radix to_digit header_value
    trim
hello-IsAnswer = record { ends = refl; success = refl; announced = refl; fits = lt_of _ _ refl }

abbrev hello_stream : TcpStream
hello_stream = record {
  incoming = response (head_of hello) hello;
  arrivals = replicate 60 (ready 3);
  turns = [];
  writes = [];
  sent = [];
}

hello_enough : length (response (head_of hello) hello) ≤ length hello_stream.arrivals
unfolding decimal_onto
hello_enough = le_of (length (response (head_of hello) hello)) 60 refl

recv_response-whole_example :
    (rest : List Arrival) × (recv_response hello_stream
      ≡ (record hello_stream { incoming = []; arrivals = rest }, ok hello))
recv_response-whole_example =
    recv_response-whole (head_of hello) hello hello_stream hello-IsAnswer refl (all_ready 60)
      hello_enough

-- A back-off of 300 seconds.
abbrev rate_limited : List Tlv8Item
rate_limited = item_u8 6 2 ∷ item 7 (3 ∷ []) ∷ item 8 (0x2c ∷ 1 ∷ []) ∷ []

check_error-back_off_sample : check_error rate_limited ≡ err (back_off (some 300))
unfolding lookup item item_u8 to_le_bytes
check_error-back_off_sample =
    check_error-back_off rate_limited 2 300 (omega arith) (omega arith) (omega arith) refl refl

-- An accessory that keeps the verifier of the PIN 3939.
abbrev proof : List ℕ
proof = (finish toy server (codes "Pair-Setup") (pad_to_n toy (toy.modpow 5 13 group_n) group_n)).1

abbrev turn_of : List Tlv8Item → Turn
turn_of items = record {
  bytes = response (head_of (encode items)) (encode items);
  arrivals = replicate 600 (ready 3);
}

-- Whether the response with these items is read whole.
is_at : Option ℕ → ℕ → Bool
is_at none n = false
is_at (some m) n = m == n

succeeded : Result (Unit {0}) HapError → Bool
succeeded (ok _) = true
succeeded (err _) = false

record Tested (body : List ℕ) : Type 0 where
  ends :
      is_at (find_subslice (response (head_of body) body) crlf_crlf) (length (head_of body)) ≡ true
  success : succeeded (check_http_status (from_utf8_lossy (head_of body))) ≡ true
  announced :
      (or_else (parse_content_length (from_utf8_lossy (head_of body))) 0 == length body) ≡ true
  short : ltb (length (response (head_of body) body)) 600 ≡ true

-- Ciphers that change nothing, and a signature that is a digest of key and message.
abbrev sum : List ℕ → ℕ
sum [] = 7
sum (b ∷ bs) = (b + sum bs * 3) % 251

abbrev toy_sign : (key message : List ℕ) → List ℕ
toy_sign key message = replicate 64 (sum (key ++ message))

abbrev toy_crypto : Crypto
toy_crypto = record {
  primitives = toy;
  hkdf_expand = λ key_salt ikm info len. some (replicate len (sum (key_salt ++ ikm ++ info)));
  encrypt = λ key nonce plaintext. some plaintext;
  decrypt = λ key nonce ciphertext. some ciphertext;
  verifying_key = λ key. key;
  sign = toy_sign;
  is_verifying_key = λ key. true;
  verify = λ key message signature. text_eq signature (toy_sign key message);
  x25519_public = λ secret. secret;
  diffie_hellman = λ secret public. secret ++ public;
}

-- The whole pairing, then pair-verify, with an accessory that signs.
abbrev own_key : List ℕ
own_key = replicate 32 5

abbrev accessory_key : List ℕ
accessory_key = replicate 32 6

abbrev own_id : Text
own_id = codes "us"

abbrev srp_key : List ℕ
srp_key = elim (client_compute toy pair_setup_username pin salt server_public 13) [
  | ok client ↦ client.session_key
  | err _ ↦ []
]

abbrev accessory_x : List ℕ
accessory_x = replicate 32 (
    sum
      (codes "Pair-Setup-Accessory-Sign-Salt" ++ srp_key ++ codes "Pair-Setup-Accessory-Sign-Info"))

abbrev m6_items : List Tlv8Item
m6_items =
    item_u8 6 6
    ∷ item 5 (
        encode (
          item 1 (codes "tv")
          ∷ item 3 accessory_key
          ∷ item 10 (toy_sign accessory_key (accessory_x ++ codes "tv" ++ accessory_key))
          ∷ []))
    ∷ []

abbrev turn_at_once : List Tlv8Item → Turn
turn_at_once items = record {
  bytes = response (head_of (encode items)) (encode items);
  arrivals = ready 9000 ∷ [];
}

abbrev setup_stream : TcpStream
setup_stream =
    idle []
      (turn_at_once (m2_items salt server_public)
        ∷ turn_at_once (m4_items proof)
        ∷ turn_at_once m6_items
        ∷ [])
      []

abbrev paired : PairSetupResult
paired = record {
  client_ltsk = own_key;
  client_ltpk = own_key;
  client_pairing_id = own_id;
  accessory_ltpk = accessory_key;
  accessory_id = codes "tv";
}

setup_runs :
    pair_setup toy_crypto pin 13 own_key own_id setup_stream
    ≡ ((pair_setup toy_crypto pin 13 own_key own_id setup_stream).0, ok paired)
unfolding pair_setup pair_setup_srp pair_setup_identity_exchange find_subslice check_http_status
    parse_content_length decimal_onto is_some strip_prefix nth close_lines split_by lossy_from
    drop_empty is_whitespace from_str_radix to_digit header_value trim encode encode_onto
    encode_item item write_be new multiplier private_x as_bytes encode_utf8 chunks item_u8 pad_to_n
    push_chunks finish scrambler server_secret proof_m1 proof_m2 xor_bytes continue_on send_post
    write write_all recv_message recv_response read_headers flush read_length read_rest read_after
    read_body content_length_of digits_value decode_items tlv_result decode decode_loop merge
    check_error check_state first lookup error_of retry_delay_secs delay_of required client_for
    client_from srp_result client_compute client_session client_secret shared_u is_zero_value
    check_proof hkdf_derive array_of seal unseal verify_signature m1_message m3_message m5_sub_tlv
    m5_message device_info accessory_info pairing_nonce post_header next_byte lead_byte
    continue_with trim_start trim_end push_front strip_cr text_eq error_message from_le_bytes
setup_runs = refl

abbrev secret : List ℕ
secret = replicate 32 9

abbrev tv_epk : List ℕ
tv_epk = replicate 32 8

abbrev verify_m2 : List Tlv8Item
verify_m2 =
    item_u8 6 2
    ∷ item 3 tv_epk
    ∷ item 5 (
        encode (
          item 1 (codes "tv")
          ∷ item 10 (toy_sign accessory_key (tv_epk ++ codes "tv" ++ secret))
          ∷ []))
    ∷ []

abbrev verify_stream : TcpStream
verify_stream = idle [] (turn_at_once verify_m2 ∷ turn_at_once (item_u8 6 4 ∷ []) ∷ []) []

abbrev verify_key : List ℕ
verify_key = replicate 32 (
    sum
      (codes "Pair-Verify-Encrypt-Salt" ++ (secret ++ tv_epk) ++ codes "Pair-Verify-Encrypt-Info"))

verify_runs :
    pair_verify toy_crypto (paired_device_from paired) secret verify_stream
    ≡ ((pair_verify toy_crypto (paired_device_from paired) secret verify_stream).0, ok verify_key)
unfolding pair_verify paired_device_from server_info client_info verify_m3_sub_tlv verify_m1
    verify_m3 find_subslice check_http_status parse_content_length decimal_onto is_some strip_prefix
    nth close_lines split_by lossy_from drop_empty is_whitespace from_str_radix to_digit
    header_value trim encode encode_onto encode_item item write_be new multiplier private_x as_bytes
    encode_utf8 chunks item_u8 pad_to_n push_chunks finish scrambler server_secret proof_m1 proof_m2
    xor_bytes continue_on send_post write write_all recv_message recv_response read_headers flush
    read_length read_rest read_after read_body content_length_of digits_value decode_items
    tlv_result decode decode_loop merge check_error check_state first lookup error_of
    retry_delay_secs delay_of required client_for client_from srp_result client_compute
    client_session client_secret shared_u is_zero_value check_proof hkdf_derive array_of seal unseal
    verify_signature m5_sub_tlv m5_message device_info accessory_info pairing_nonce post_header
    next_byte lead_byte continue_with trim_start trim_end push_front strip_cr text_eq error_message
    from_le_bytes
verify_runs = refl

pair_verify-after_setup_example :
    (session_key : List ℕ) × IsAuthenticated toy_crypto session_key paired
    × IsVerified toy_crypto accessory_key own_key own_id secret verify_stream
        (pair_verify toy_crypto (paired_device_from paired) secret verify_stream).0
        verify_key
pair_verify-after_setup_example =
    pair_verify-after_setup toy_crypto pin 13 own_key own_id setup_stream setup_runs secret
      verify_stream verify_runs

pair_setup-checks_example :
    let after = (pair_setup toy_crypto pin 13 own_key own_id setup_stream).0 in
    (session_key : List ℕ) × (after_m4 : TcpStream) × IsProven toy_crypto pin false 13 setup_stream
      after_m4 session_key
    × (auth : IsAuthenticated toy_crypto session_key paired) × IsExchange toy_crypto session_key
        own_key own_id auth.enc_key auth.ciphertext after_m4 after
    × (paired.client_pairing_id ≡ own_id)
    × (paired.client_ltsk ≡ own_key)
pair_setup-checks_example =
    pair_setup-checks toy_crypto pin 13 own_key own_id setup_stream setup_runs
