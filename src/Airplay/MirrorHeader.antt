-- ===== src/Airplay/MirrorHeader.antt =====
-- crates/openplay-airplay/src/mirror_header.rs: the header of a packet of the mirror stream.
pub mod RoundTrip
mod Examples
use openplay.Prelude.Strings.{and_then}
use openplay.Prelude.{
  none, some, if◌then◌else◌, ℕ, List, Option, ◌++◌, take, ltb, ◌==◌, replicate, drop, length, ◌-◌,
}
use openplay.Prelude.Endian.{to_le_bytes, from_le_bytes, to_be_bytes, from_be_bytes}

pub data PacketType : Type 0 where
  video codec_data heartbeat : PacketType

unfoldable pub from_u16 : ℕ → Option PacketType
from_u16 val =
    if val == 0
    then some video
    else if val == 1
    then some codec_data
    else if val == 2
    then some heartbeat
    else none

-- `as u16`.
unfoldable pub to_u16 : PacketType → ℕ
to_u16 video = 0
to_u16 codec_data = 1
to_u16 heartbeat = 2

pub record MirrorHeader : Type 0 where
  pub payload_size : ℕ
  pub packet_type : PacketType
  pub ntp_timestamp : ℕ

abbrev pub header_size : ℕ
header_size = 128

unfoldable pub encode : MirrorHeader → List ℕ
unfolding to_u16
encode h =
    to_le_bytes 4 h.payload_size
    ++ to_le_bytes 2 (to_u16 h.packet_type)
    ++ to_le_bytes 2 0
    ++ to_be_bytes 8 h.ntp_timestamp
    ++ replicate (header_size - 16) 0

-- `data[from..from + n]`.
abbrev pub slice : (from n : ℕ) → List ℕ → List ℕ
slice from n bytes = take n (drop from bytes)

-- With `?` on the packet type.
unfoldable pub header_of :
    Option PacketType → (payload_size ntp_timestamp : ℕ) → Option MirrorHeader
header_of none payload_size ntp_timestamp = none
header_of (some packet_type) payload_size ntp_timestamp = some (record {
  payload_size = payload_size;
  packet_type = packet_type;
  ntp_timestamp = ntp_timestamp;
})

unfoldable pub decode : List ℕ → Option MirrorHeader
unfolding header_of
decode bytes =
    if ltb (length bytes) header_size
    then none
    else header_of (from_u16 (from_le_bytes (slice 4 2 bytes))) (from_le_bytes (slice 0 4 bytes))
        (from_be_bytes (slice 8 8 bytes))
