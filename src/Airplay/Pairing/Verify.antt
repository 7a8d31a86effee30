-- ===== src/Airplay/Pairing/Verify.antt =====
-- crates/openplay-airplay/src/hap_pairing.rs: pair-verify, from a stream that is connected. The
-- ephemeral secret that the code draws is an argument.
pub mod Identity
use openplay.Prelude.{[], List, ℕ, codes, Text, ◌++◌, ◌∷◌}
use openplay.Prelude.Utf8.{as_bytes}
use openplay.Airplay.Tlv8.{Tlv8Item, encode, item, item_u8}
use openplay.Airplay.Tlv8.Tags.{
  tag_state, tag_public_key, tag_identifier, tag_signature, tag_encrypted_data,
}
use openplay.Airplay.Pairing.{
  Crypto, HapError, Hap, PairedDevice, continue_on, lift, pure, ◌>>=◌, ◌>>◌, crypto, hkdf_derive,
  array_of,
}
use openplay.Airplay.Pairing.Http.{send_pair_verify, recv_pair_verify}
use openplay.Airplay.Pairing.Items.{decode_items, required}
use openplay.Airplay.Pairing.Setup.{recv_message, seal, unseal, verify_signature}

module _ (c : Crypto) where
  unfoldable pub client_info :
      (client_epk : List ℕ) (client_pairing_id : Text) (accessory_epk : List ℕ) → List ℕ
  client_info client_epk client_pairing_id accessory_epk =
      client_epk ++ as_bytes client_pairing_id ++ accessory_epk

  unfoldable pub verify_m3_sub_tlv :
      (client_ltsk : List ℕ) (client_pairing_id : Text) (client_epk accessory_epk : List ℕ) → List ℕ
  unfolding client_info
  verify_m3_sub_tlv client_ltsk client_pairing_id client_epk accessory_epk =
      let client_sig =
        c.sign client_ltsk (client_info client_epk client_pairing_id accessory_epk) in
      encode (item tag_identifier (as_bytes client_pairing_id) ∷ item tag_signature client_sig ∷ [])

  unfoldable pub m1_message : (client_public : List ℕ) → List ℕ
  m1_message client_public = encode (item_u8 tag_state 1 ∷ item tag_public_key client_public ∷ [])

  unfoldable pub m3_message : (encrypted : List ℕ) → List ℕ
  m3_message encrypted = encode (item_u8 tag_state 3 ∷ item tag_encrypted_data encrypted ∷ [])

  -- What the accessory has signed.
  unfoldable pub server_info : (server_epk server_id client_public : List ℕ) → List ℕ
  server_info server_epk server_id client_public = server_epk ++ server_id ++ client_public

  unfoldable pub pair_verify : (paired : PairedDevice) (client_secret : List ℕ) → Hap (List ℕ)
  pair_verify paired client_secret = do
    let client_public = c.x25519_public client_secret
    send_pair_verify (m1_message client_public)
    m2 ← recv_message 2 recv_pair_verify
    server_epk_bytes ← lift (required m2 tag_public_key (codes "M2: missing server ephemeral PK"))
    m2_encrypted ← lift (required m2 tag_encrypted_data (codes "M2: missing encrypted data"))
    server_epk ← lift (array_of 32 server_epk_bytes (crypto (codes "Invalid server EPK length")))
    session_key ← lift (
        hkdf_derive c (codes "Pair-Verify-Encrypt-Salt") (c.diffie_hellman client_secret server_epk)
          (codes "Pair-Verify-Encrypt-Info") 32)
    key_arr ← lift (array_of 32 session_key (crypto (codes "key len")))
    m2_plain ←
        lift (unseal c (codes "M2 decryption failed") (codes "PV-Msg02") key_arr m2_encrypted)
    m2_sub ← lift (decode_items m2_plain)
    server_id ← lift (required m2_sub tag_identifier (codes "M2 sub-TLV: missing identifier"))
    server_sig ← lift (required m2_sub tag_signature (codes "M2 sub-TLV: missing signature"))
    lift (
        verify_signature c paired.accessory_ltpk
          (server_info server_epk_bytes server_id client_public) server_sig)
    encrypted ← lift (
        seal c (codes "M3 encryption failed") (codes "PV-Msg03") key_arr (
          verify_m3_sub_tlv paired.client_ltsk paired.client_pairing_id client_public
            server_epk_bytes))
    send_pair_verify (m3_message encrypted)
    _ ← recv_message 4 recv_pair_verify
    pure key_arr
