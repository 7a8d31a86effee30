-- ===== src/Airplay/Pairing/Setup/Agreement.antt =====
-- crates/openplay-airplay/src/hap_pairing.rs: pair-setup with an accessory that follows the protocol.
use openplay.Prelude.Utf8.{as_bytes}
use openplay.Prelude.{[], List, ◌≡◌, ℕ, All, ◌∷◌, length, ◌≤◌, codes}
use openplay.Airplay.Tlv8.{Tlv8Item, encode, item, item_u8}
use openplay.Airplay.Tlv8.Tags.{tag_state, tag_public_key, tag_salt, tag_proof}
use openplay.Airplay.Stream.{TcpStream, Turn, Arrival}
use openplay.Airplay.Pairing.Http.{octet_stream, post_header, post_header}
use openplay.Airplay.Pairing.Http.Body.{IsReady}
use openplay.Airplay.Pairing.Http.Chunks.{IsAnswer, response}

-- A turn of the accessory: these items, in one response.
pub record Sends (t : Turn) (items : List Tlv8Item) : Type 0 where
  pub head : List ℕ
  pub answer : IsAnswer head (encode items)
  pub bytes_are : t.bytes ≡ response head (encode items)
  pub prompt : All IsReady t.arrivals
  pub enough : length (response head (encode items)) ≤ length t.arrivals

-- A stream with nothing left to read, on which every write succeeds.
abbrev pub idle : List Arrival → List Turn → List (List ℕ) → TcpStream
idle arrivals turns sent = record {
  incoming = [];
  arrivals = arrivals;
  turns = turns;
  writes = [];
  sent = sent;
}

-- The accessory's turn has begun.
abbrev heard : Turn → List Turn → List (List ℕ) → TcpStream
heard t turns sent = record (idle t.arrivals turns sent) { incoming = t.bytes }

-- What `send_pair_setup` writes.
abbrev pub post : (body : List ℕ) → List (List ℕ)
post body = as_bytes (post_header (codes "/pair-setup") octet_stream (length body)) ∷ body ∷ []

-- The messages of an accessory that runs SRP.
abbrev pub m2_items : (salt public_b : List ℕ) → List Tlv8Item
m2_items salt public_b =
    item_u8 tag_state 2 ∷ item tag_salt salt ∷ item tag_public_key public_b ∷ []

abbrev pub m4_items : (proof : List ℕ) → List Tlv8Item
m4_items proof = item_u8 tag_state 4 ∷ item tag_proof proof ∷ []
