-- ===== src/Airplay/Pairing/Items/Errors.antt =====
-- crates/openplay-airplay/src/hap_pairing.rs: which errors a message stands for.
use openplay.Prelude.{false}
use openplay.Prelude.{
  some, err, [], ℕ, List, ◌<◌, ◌≡◌, ◌∷◌, ◌≤◌, ap, ◌^◌, arith, ◌==◌, ◌||◌, ltb, ◌∙◌, ◌-◌,
}
use openplay.Prelude.Endian.{
  from_le_bytes-zeros, to_le_bytes, length-to_le_bytes, from_le_bytes-to_le_bytes,
}
use openplay.Airplay.Tlv8.{Tlv8Item, lookup}
use openplay.Airplay.Tlv8.Tags.{tag_error, tag_retry_delay}
use openplay.Airplay.Pairing.{back_off}
use openplay.Airplay.Pairing.Items.{delay_of, error_of, first, check_error, retry_delay_secs}

retry_delay_secs-written :
    (items : List Tlv8Item) (width delay : ℕ)
    → 0 < width
    → width ≤ 8
    → delay < 256 ^ width
    → lookup items tag_retry_delay ≡ some (to_le_bytes width delay)
    → retry_delay_secs items ≡ some delay
unfolding retry_delay_secs delay_of
retry_delay_secs-written items width delay pos small fits d =
    ap delay_of d
    ∙ rw (length-to_le_bytes width delay, inside)
        (ap some (
          from_le_bytes-zeros (to_le_bytes width delay) (8 - width)
          ∙ from_le_bytes-to_le_bytes width delay fits))
  where
    inside : (width == 0 || ltb 8 width) ≡ false
    inside = ground arith

-- A back-off is reported as one, with the delay that the accessory wrote in one to eight
-- little-endian bytes.
pub check_error-back_off :
    (items : List Tlv8Item) (width delay : ℕ)
    → 0 < width
    → width ≤ 8
    → delay < 256 ^ width
    → lookup items tag_error ≡ some (3 ∷ [])
    → lookup items tag_retry_delay ≡ some (to_le_bytes width delay)
    → check_error items ≡ err (back_off (some delay))
unfolding check_error first error_of
check_error-back_off items width delay pos small fits e d =
    λ i. error_of (first (e i)) (retry_delay_secs-written items width delay pos small fits d i)
