-- ===== src/Airplay/Ntp.antt =====
-- crates/openplay-airplay/src/ntp.rs: the time server of the sender. The time is an argument.
pub mod Answer
mod Examples
use openplay.Prelude.Strings.{or_else, nth}
use openplay.Prelude.{
  none, some, if◌then◌else◌, List, ℕ, Option, ◌/◌, ◌+◌, leb, ◌%◌, ◌*◌, ◌^◌, length, take, ◌∷◌,
  replicate, ◌++◌, codes,
}
use Prim.Native.Nat.{bit_or}
use openplay.Prelude.Endian.{to_be_bytes}
use openplay.Airplay.MirrorHeader.{slice}

abbrev pub ntp_epoch_offset : ℕ
ntp_epoch_offset = 2208988800

abbrev pub ntp_packet_size : ℕ
ntp_packet_size = 48

-- From the time since 1970. The sum and the shift are those of a u64.
unfoldable pub ntp_timestamp : (secs subsec_nanos : ℕ) → ℕ
ntp_timestamp secs subsec_nanos =
    bit_or ((secs + ntp_epoch_offset) % 2 ^ 64 * 2 ^ 32 % 2 ^ 64)
      (subsec_nanos * 2 ^ 32 / 1000000000)

-- `request[i]`, of a request that is long enough.
abbrev pub byte_at : ℕ → List ℕ → ℕ
byte_at i request = or_else (nth i request) 0

-- The bytes of the response in their order: flags, stratum, poll and precision, the delay and the
-- dispersion, the reference identifier, and four timestamps.
unfoldable pub build_ntp_response : (request : List ℕ) (now : ℕ) → List ℕ
build_ntp_response request now =
    let client_vn = byte_at 0 request / 8 % 8 in
    let now_bytes = to_be_bytes 8 now in
    bit_or (client_vn * 8) 4 ∷ 1 ∷ byte_at 2 request ∷ 246 ∷ replicate 8 0
    ++ codes "AIRP"
    ++ now_bytes
    ++ slice 40 8 request
    ++ now_bytes
    ++ now_bytes

-- One datagram of the loop in `start`; the buffer takes 48 bytes of it.
unfoldable pub answer : (datagram : List ℕ) (now : ℕ) → Option (List ℕ)
answer datagram now =
    if leb ntp_packet_size (length datagram)
    then some (build_ntp_response (take ntp_packet_size datagram) now)
    else none
