-- ===== src/Airplay/Tlv8/Examples.antt =====
-- Runs of the TLV8 functions, and their theorems at concrete inputs.
use openplay.Airplay.Tlv8.RoundTrip.{decode-encode, decode-encode-decode}
use openplay.Airplay.Tlv8.{
  Tlv8Item, decode, encode, lookup, map_get, encode_onto, truncated_value, decode_loop, item_u8,
  merge, item, encode_item, chunks,
}
use openplay.Airplay.Tlv8.Decode.{Locates, decode-Locates}
use openplay.Prelude.{List, [], err, ok, refl, some, ◌∷◌, ◌≡◌, replicate}

abbrev fragmented : List Tlv8Item
fragmented =
    record { tag = 6; value = 1 ∷ [] } ∷ record { tag = 3; value = replicate 300 0xab } ∷ []

encode-item_u8 : encode (item_u8 6 1 ∷ item_u8 0 0 ∷ []) ≡ 6 ∷ 1 ∷ 1 ∷ 0 ∷ 1 ∷ 0 ∷ []
unfolding encode encode_onto encode_item chunks item_u8
encode-item_u8 = refl

decode-cut : decode (6 ∷ 5 ∷ 1 ∷ []) ≡ err (truncated_value 2 5 1)
unfolding decode decode_loop merge
decode-cut = refl

lookup-first : lookup (item_u8 6 1 ∷ item 0 [] ∷ item_u8 6 2 ∷ []) 6 ≡ some (1 ∷ [])
unfolding lookup item_u8 item
lookup-first = refl

map_get-last : map_get (item_u8 6 1 ∷ item 0 [] ∷ item_u8 6 2 ∷ []) 6 ≡ some (2 ∷ [])
unfolding map_get item_u8 item
map_get-last = refl

decode-repeated :
    decode (1 ∷ 1 ∷ 8 ∷ 1 ∷ 1 ∷ 9 ∷ []) ≡ ok (record { tag = 1; value = 8 ∷ 9 ∷ [] } ∷ [])
unfolding decode decode_loop merge
decode-repeated = refl

decode-encode_example : decode (encode fragmented) ≡ ok fragmented
decode-encode_example = decode-encode fragmented

decode-Locates_sample : Locates (truncated_value 2 5 1) 3
decode-Locates_sample = decode-Locates (6 ∷ 5 ∷ 1 ∷ []) (truncated_value 2 5 1) decode-cut

decode-encode-decode_sample :
    decode (encode (record { tag = 1; value = 8 ∷ 9 ∷ [] } ∷ []))
    ≡ ok (record { tag = 1; value = 8 ∷ 9 ∷ [] } ∷ [])
decode-encode-decode_sample =
    decode-encode-decode (1 ∷ 1 ∷ 8 ∷ 1 ∷ 1 ∷ 9 ∷ []) (record { tag = 1; value = 8 ∷ 9 ∷ [] } ∷ [])
      decode-repeated
