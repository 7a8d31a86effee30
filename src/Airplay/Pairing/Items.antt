-- ===== src/Airplay/Pairing/Items.antt =====
-- crates/openplay-airplay/src/hap_pairing.rs: the state and the error of a message.
pub mod Errors
use openplay.Prelude.Endian.{from_le_bytes}
use openplay.Prelude.{
  none, some, ok, err, [], if◌then◌else◌, List, ℕ, Option, ◌∷◌, Text, length, Result, ◌==◌, ok_or,
  codes, ◌+◌, ◌*◌, ◌||◌, ltb, ◌++◌, replicate, ◌-◌,
}
use openplay.Airplay.Tlv8.{Tlv8Item, DecodeError, lookup, decode}
use openplay.Airplay.Tlv8.Tags.{
  tag_state, tag_error, tag_retry_delay, error_none, error_backoff, error_unknown,
  error_authentication, error_max_peers, error_max_tries, error_unavailable, error_busy,
}
use openplay.Airplay.Pairing.{HapError, tlv, missing, unexpected_state, back_off, hap_error}

-- `tlv8::decode(…)?`.
unfoldable pub tlv_result : Result (List Tlv8Item) DecodeError → Result (List Tlv8Item) HapError
tlv_result (ok items) = ok items
tlv_result (err e) = err (tlv e)

unfoldable pub decode_items : List ℕ → Result (List Tlv8Item) HapError
unfolding tlv_result
decode_items bytes = tlv_result (decode bytes)

-- `lookup(…).ok_or_else(…)`.
unfoldable pub required : List Tlv8Item → ℕ → Text → Result (List ℕ) HapError
required items tag what = ok_or (lookup items tag) (missing what)

unfoldable pub first : Option (List ℕ) → Option ℕ
first none = none
first (some []) = none
first (some (b ∷ bs)) = some b

unfoldable pub check_state : List Tlv8Item → ℕ → Result (Unit {0}) HapError
unfolding first
check_state items expected = elim (first (lookup items tag_state)) [
  | none ↦ err (missing (codes "Missing state TLV"))
  | some state ↦ if state == expected then ok tt else err (unexpected_state state expected)
]

-- The bytes with zeros behind them, as a u64.
unfoldable pub delay_of : Option (List ℕ) → Option ℕ
unfolding from_le_bytes
delay_of none = none
delay_of (some raw) =
    if length raw == 0 || ltb 8 (length raw)
    then none
    else some (from_le_bytes (raw ++ replicate (8 - length raw) 0))

unfoldable pub retry_delay_secs : List Tlv8Item → Option ℕ
unfolding delay_of
retry_delay_secs items = delay_of (lookup items tag_retry_delay)

unfoldable pub error_message : ℕ → Text
error_message code =
    if code == error_unknown
    then codes "Unknown error"
    else if code == error_authentication
    then codes "Authentication failed"
    else if code == error_max_peers
    then codes "Maximum peers reached"
    else if code == error_max_tries
    then codes "Maximum tries reached"
    else if code == error_unavailable
    then codes "Resource unavailable"
    else if code == error_busy
    then codes "Device busy"
    else codes "Unknown HAP error"

-- By the first byte of the error item, if there is one.
unfoldable pub error_of : Option ℕ → (delay : Option ℕ) → Result (Unit {0}) HapError
error_of none delay = ok tt
error_of (some code) delay =
    if code == error_none
    then ok tt
    else if code == error_backoff
    then err (back_off delay)
    else err (hap_error code (error_message code))

unfoldable pub check_error : List Tlv8Item → Result (Unit {0}) HapError
unfolding first error_of
check_error items = error_of (first (lookup items tag_error)) (retry_delay_secs items)
