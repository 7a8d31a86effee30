-- ===== src/Airplay/Pairing/Setup.antt =====
-- crates/openplay-airplay/src/hap_pairing.rs: pair-setup, from a stream that is connected. What the
-- code draws at random is an argument: `a`, the signing key and the pairing identifier.
use openplay.Prelude.{none, some}
use openplay.Prelude.{true, false}
use openplay.Prelude.{
  ok, err, [], if◌then◌else◌, Text, Result, Bool, ℕ, List, ◌∷◌, codes, text_eq, length, ok_or, ◌++◌,
  ◌==◌, Option,
}
pub mod Agreement
pub mod Identity
pub mod Proof
use openplay.Prelude.Utf8.{as_bytes, from_utf8_lossy}
use openplay.Airplay.Tlv8.{Tlv8Item, lookup, encode, item, item_u8}
use openplay.Airplay.Tlv8.Tags.{
  tag_state, tag_method, tag_flags, tag_public_key, tag_salt, tag_proof, tag_identifier,
  tag_signature, tag_encrypted_data, method_pair_setup,
}
use openplay.Airplay.Srp.{SrpError, ClientSession, client_compute}
use openplay.Airplay.Pairing.{
  Crypto, HapError, missing, Hap, PairSetupResult, continue_on, lift, pure, ◌>>=◌, ◌>>◌, srp,
  crypto, server_proof_failed, hkdf_derive, array_of, pairing_nonce,
}
use openplay.Airplay.Pairing.Http.{send_pair_setup, recv_pair_setup}
use openplay.Airplay.Pairing.Items.{decode_items, required, check_state, check_error}

abbrev pub pair_setup_username : Text
pair_setup_username = codes "Pair-Setup"

abbrev pub flag_transient : ℕ
flag_transient = 0x10

-- A message is received, decoded and checked for an error and for its number.
unfoldable pub recv_message : ℕ → Hap (List ℕ) → Hap (List Tlv8Item)
recv_message expected recv = do
  bytes ← recv
  items ← lift (decode_items bytes)
  lift (check_error items)
  lift (check_state items expected)
  pure items

unfoldable pub m1_message : Bool → List ℕ
m1_message transient =
    if transient
    then encode (
        item_u8 tag_state 1
        ∷ item_u8 tag_method method_pair_setup
        ∷ item_u8 tag_flags flag_transient
        ∷ [])
    else encode (item_u8 tag_state 1 ∷ item_u8 tag_method method_pair_setup ∷ [])

unfoldable pub m3_message : ClientSession → List ℕ
m3_message client =
    encode
      (item_u8 tag_state 3 ∷ item tag_public_key client.public_a ∷ item tag_proof client.m1 ∷ [])

unfoldable pub srp_result : Result ClientSession SrpError → Result ClientSession HapError
srp_result (ok client) = ok client
srp_result (err e) = err (srp e)

-- The client's answer to M2, which brings the public key and the salt.
unfoldable pub client_from :
    Crypto → (pin : Text) (a : ℕ) (server_pk salt : Option (List ℕ)) → Result ClientSession HapError
unfolding srp_result
client_from c pin a none salt = err (missing (codes "M2: missing server public key"))
client_from c pin a (some server_pk) none = err (missing (codes "M2: missing salt"))
client_from c pin a (some server_pk) (some salt) =
    srp_result (client_compute c.primitives pair_setup_username pin salt server_pk a)

unfoldable pub client_for :
    Crypto → (pin : Text) (a : ℕ) → List Tlv8Item → Result ClientSession HapError
unfolding client_from
client_for c pin a m2 = client_from c pin a (lookup m2 tag_public_key) (lookup m2 tag_salt)

-- The server's proof must be the one that the client expects.
unfoldable pub check_proof : ClientSession → List Tlv8Item → Result (List ℕ) HapError
unfolding required
check_proof client m4 = elim (required m4 tag_proof (codes "M4: missing server proof")) [
  | err e ↦ err e
  | ok server_proof ↦
      if text_eq server_proof client.expected_m2
      then ok client.session_key
      else err server_proof_failed
]

module _ (c : Crypto) where
  unfoldable pub pair_setup_srp : (pin : Text) (transient : Bool) (a : ℕ) → Hap (List ℕ)
  pair_setup_srp pin transient a = do
    send_pair_setup (m1_message transient)
    m2 ← recv_message 2 recv_pair_setup
    client ← lift (client_for c pin a m2)
    send_pair_setup (m3_message client)
    m4 ← recv_message 4 recv_pair_setup
    lift (check_proof client m4)

  unfoldable pub device_info :
      (device_x : List ℕ) (client_pairing_id : Text) (client_ltpk : List ℕ) → List ℕ
  device_info device_x client_pairing_id client_ltpk =
      device_x ++ as_bytes client_pairing_id ++ client_ltpk

  unfoldable pub m5_sub_tlv :
      (client_ltsk : List ℕ) (client_pairing_id : Text) (device_x : List ℕ) → List ℕ
  unfolding device_info
  m5_sub_tlv client_ltsk client_pairing_id device_x =
      let client_ltpk = c.verifying_key client_ltsk in
      let device_sig = c.sign client_ltsk (device_info device_x client_pairing_id client_ltpk) in
      encode (
        item tag_identifier (as_bytes client_pairing_id)
        ∷ item tag_public_key client_ltpk
        ∷ item tag_signature device_sig
        ∷ [])

  unfoldable pub m5_message : (encrypted : List ℕ) → List ℕ
  m5_message encrypted = encode (item_u8 tag_state 5 ∷ item tag_encrypted_data encrypted ∷ [])

  unfoldable pub seal : (what label : Text) (key plaintext : List ℕ) → Result (List ℕ) HapError
  seal what label key plaintext =
      ok_or (c.encrypt key (pairing_nonce label) plaintext) (crypto what)

  unfoldable pub unseal : (what label : Text) (key ciphertext : List ℕ) → Result (List ℕ) HapError
  unseal what label key ciphertext =
      ok_or (c.decrypt key (pairing_nonce label) ciphertext) (crypto what)

  -- `VerifyingKey::from_bytes`, `Signature::from_bytes` and `verify`.
  unfoldable pub verify_signature : (key message signature : List ℕ) → Result (Unit {0}) HapError
  unfolding array_of
  verify_signature key message signature =
      if c.is_verifying_key key
      then if length signature == 64
        then if c.verify key message signature
          then ok tt
          else err (crypto (codes "signature error"))
        else err (crypto (codes "Invalid signature length"))
      else err (crypto (codes "invalid key"))

  -- `accessory_info`: what the accessory has signed.
  unfoldable pub accessory_info : (accessory_x accessory_id accessory_ltpk : List ℕ) → List ℕ
  accessory_info accessory_x accessory_id accessory_ltpk =
      accessory_x ++ accessory_id ++ accessory_ltpk

  unfoldable pub pair_setup_identity_exchange :
      (session_key client_ltsk : List ℕ) (client_pairing_id : Text) → Hap PairSetupResult
  pair_setup_identity_exchange session_key client_ltsk client_pairing_id = do
    enc_key ← lift (
        hkdf_derive c (codes "Pair-Setup-Encrypt-Salt") session_key
          (codes "Pair-Setup-Encrypt-Info") 32)
    device_x ← lift (
        hkdf_derive c (codes "Pair-Setup-Controller-Sign-Salt") session_key
          (codes "Pair-Setup-Controller-Sign-Info") 32)
    enc_key_arr ← lift (array_of 32 enc_key (crypto (codes "key length")))
    encrypted ← lift (
        seal (codes "Encryption failed") (codes "PS-Msg05") enc_key_arr
          (m5_sub_tlv client_ltsk client_pairing_id device_x))
    send_pair_setup (m5_message encrypted)
    m6 ← recv_message 6 recv_pair_setup
    m6_encrypted ← lift (required m6 tag_encrypted_data (codes "M6: missing encrypted data"))
    m6_decrypted ←
        lift (unseal (codes "M6 decryption failed") (codes "PS-Msg06") enc_key_arr m6_encrypted)
    m6_sub ← lift (decode_items m6_decrypted)
    accessory_id ← lift (required m6_sub tag_identifier (codes "M6: missing accessory ID"))
    accessory_ltpk ← lift (required m6_sub tag_public_key (codes "M6: missing accessory LTPK"))
    accessory_sig ← lift (required m6_sub tag_signature (codes "M6: missing accessory signature"))
    accessory_x ← lift (
        hkdf_derive c (codes "Pair-Setup-Accessory-Sign-Salt") session_key
          (codes "Pair-Setup-Accessory-Sign-Info") 32)
    accessory_pk ←
        lift (array_of 32 accessory_ltpk (crypto (codes "Invalid accessory LTPK length")))
    lift (
        verify_signature accessory_pk (accessory_info accessory_x accessory_id accessory_ltpk)
          accessory_sig)
    pure (record {
      client_ltsk = client_ltsk;
      client_ltpk = c.verifying_key client_ltsk;
      client_pairing_id = client_pairing_id;
      accessory_ltpk = accessory_pk;
      accessory_id = from_utf8_lossy accessory_id;
    })

  unfoldable pub pair_setup :
      (pin : Text) (a : ℕ) (client_ltsk : List ℕ) (client_pairing_id : Text) → Hap PairSetupResult
  pair_setup pin a client_ltsk client_pairing_id = do
    session_key ← pair_setup_srp pin false a
    pair_setup_identity_exchange session_key client_ltsk client_pairing_id

  -- Transient pairing ends at M4.
  unfoldable pub pair_setup_transient : (a : ℕ) → Hap (List ℕ)
  pair_setup_transient a = pair_setup_srp (codes "3939") true a
