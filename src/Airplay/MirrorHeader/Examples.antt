-- ===== src/Airplay/MirrorHeader/Examples.antt =====
-- A mirror header at concrete values.
use openplay.Prelude.{some, [], length, ◌≡◌, ◌++◌, ◌∷◌, arith}
use openplay.Airplay.MirrorHeader.{MirrorHeader, codec_data, encode, decode, header_size}
use openplay.Airplay.MirrorHeader.RoundTrip.{decode-encode_header}

abbrev config : MirrorHeader
config = record { payload_size = 64; packet_type = codec_data; ntp_timestamp = 0xaabbccdd00112233 }

decode-encode_header_sample :
    (length (encode config) ≡ header_size) × (decode (encode config ++ (7 ∷ 8 ∷ [])) ≡ some config)
decode-encode_header_sample = decode-encode_header config (7 ∷ 8 ∷ []) (omega arith) (omega arith)
