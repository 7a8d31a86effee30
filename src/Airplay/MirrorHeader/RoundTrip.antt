-- ===== src/Airplay/MirrorHeader/RoundTrip.antt =====
-- crates/openplay-airplay/src/mirror_header.rs: a header is read back from its bytes.
use openplay.Prelude.{false}
use openplay.Prelude.{
  some, refl, ◌≡◌, List, ◌<◌, ℕ, ◌^◌, arith, length, ◌++◌, ltb, length-append, ap, ◌∙◌,
}
use openplay.Prelude.Endian.{
  to_le_bytes, from_le_bytes, to_be_bytes, from_be_bytes, from_le_bytes-to_le_bytes,
  from_be_bytes-to_be_bytes, to_be_onto,
}
use openplay.Airplay.MirrorHeader.{
  PacketType, video, codec_data, heartbeat, MirrorHeader, from_u16, to_u16, encode, decode,
  header_size, header_of,
}

from_u16-to_u16 : (t : PacketType) → from_u16 (to_u16 t) ≡ some t
unfolding from_u16 to_u16
from_u16-to_u16 video = refl
from_u16-to_u16 codec_data = refl
from_u16-to_u16 heartbeat = refl

to_u16-small : (t : PacketType) → to_u16 t < 256 ^ 2
unfolding to_u16
to_u16-small video = omega arith
to_u16-small codec_data = omega arith
to_u16-small heartbeat = omega arith

length-encode : (h : MirrorHeader) → length (encode h) ≡ header_size
unfolding encode to_le_bytes to_be_onto
length-encode h = refl

-- A header whose size and time fit their fields takes 128 bytes, and is read back from them,
-- whatever comes behind.
pub decode-encode_header :
    (h : MirrorHeader) (behind : List ℕ)
    → h.payload_size < 2 ^ 32
    → h.ntp_timestamp < 2 ^ 64
    → (length (encode h) ≡ header_size) × (decode (encode h ++ behind) ≡ some h)
unfolding decode header_of encode to_le_bytes to_be_onto
decode-encode_header h behind size time =
    (length-encode h, rw enough (λ i. header_of (type_is i) (size_is i) (time_is i)))
  where
    enough : ltb (length (encode h ++ behind)) header_size ≡ false
    enough = ground (arith, length-append (encode h) behind, length-encode h)

    type_is : from_u16 (from_le_bytes (to_le_bytes 2 (to_u16 h.packet_type))) ≡ some h.packet_type
    type_is =
        ap from_u16
          (from_le_bytes-to_le_bytes 2 (to_u16 h.packet_type) (to_u16-small h.packet_type))
        ∙ from_u16-to_u16 h.packet_type

    size_is : from_le_bytes (to_le_bytes 4 h.payload_size) ≡ h.payload_size
    size_is = from_le_bytes-to_le_bytes 4 h.payload_size (omega arith)

    time_is : from_be_bytes (to_be_bytes 8 h.ntp_timestamp) ≡ h.ntp_timestamp
    time_is = from_be_bytes-to_be_bytes 8 h.ntp_timestamp (omega arith)
