-- ===== src/Airplay/Pairing/Verify/Identity.antt =====
-- crates/openplay-airplay/src/hap_pairing.rs: what a completed pair-verify has checked and sent.
use openplay.Prelude.{some, ok, true, [], List, ℕ, Text, codes, ◌≡◌, ◌∷◌, sym, ◌++◌, ap, ◌∙◌, subst}
use openplay.Prelude.Utf8.{as_bytes}
use openplay.Airplay.Stream.{TcpStream}
use openplay.Airplay.Tlv8.{Tlv8Item, lookup, encode, item}
use openplay.Airplay.Tlv8.Tags.{tag_identifier, tag_signature}
use openplay.Airplay.Pairing.{
  Crypto, PairSetupResult, PairedDevice, paired_device_from, pairing_nonce,
}
use openplay.Airplay.Pairing.Items.{decode_items}
use openplay.Airplay.Pairing.Steps.{step_then, value_then, array_of-ok, ok_or-ok, pure-ok}
use openplay.Airplay.Pairing.Http.{octet_stream, recv_pair_verify}
use openplay.Airplay.Pairing.Http.Sent.{request, send_post-sent, recv_response-sent}
use openplay.Airplay.Pairing.Setup.{seal, recv_message, pair_setup}
use openplay.Airplay.Pairing.Setup.Identity.{
  IsAuthenticated, required-ok, verify_signature-ok, hkdf_derive-ok, unseal-ok, pair_setup-checks,
}
use openplay.Airplay.Pairing.Verify.{
  client_info, verify_m3_sub_tlv, m1_message, m3_message, server_info, pair_verify,
}

-- The accessory signed this exchange with the key that is on file, and our answer names us by the
-- identifier that is on file and is signed with our own key; nothing else was sent.
pub record IsVerified (c : Crypto) (accessory_ltpk client_ltsk : List ℕ) (client_pairing_id : Text)
    (client_secret : List ℕ) (s s' : TcpStream) (key : List ℕ) : Type 0 where
  pub server_epk : List ℕ
  pub m2_encrypted : List ℕ
  pub plaintext : List ℕ
  pub items : List Tlv8Item
  pub server_id : List ℕ
  pub signature : List ℕ
  pub encrypted : List ℕ
  pub key_derived :
      c.hkdf_expand
        (codes "Pair-Verify-Encrypt-Salt")
        (c.diffie_hellman client_secret server_epk)
        (codes "Pair-Verify-Encrypt-Info")
        32
      ≡ some key
  pub decrypted : c.decrypt key (pairing_nonce (codes "PV-Msg02")) m2_encrypted ≡ some plaintext
  pub decoded : decode_items plaintext ≡ ok items
  pub identified : lookup items tag_identifier ≡ some server_id
  pub signed : lookup items tag_signature ≡ some signature
  pub verified :
      c.verify accessory_ltpk
        (server_info c server_epk server_id (c.x25519_public client_secret))
        signature
      ≡ true
  pub answered :
      c.encrypt key (pairing_nonce (codes "PV-Msg03")) (
        encode (
          item tag_identifier (as_bytes client_pairing_id)
          ∷ item tag_signature (
              c.sign client_ltsk
                (c.x25519_public client_secret ++ as_bytes client_pairing_id ++ server_epk))
          ∷ []))
      ≡ some encrypted
  pub sent :
      s'.sent
      ≡ (s.sent
          ++ request
              (codes "/pair-verify")
              octet_stream
              (m1_message c (c.x25519_public client_secret)))
        ++ request (codes "/pair-verify") octet_stream (m3_message c encrypted)

recv_message-sent :
    (n : ℕ) (s : TcpStream) {s' : TcpStream} {items : List Tlv8Item}
    → recv_message n recv_pair_verify s ≡ (s', ok items)
    → s'.sent ≡ s.sent
unfolding recv_message
recv_message-sent n s h0 = step_then _ _ h0 λ s1 bytes e1 h1. value_then s1 _ _ h1 λ items e2 h2.
    value_then s1 _ _ h2 λ u3 e3 h3.
      value_then s1 _ _ h3 λ u4 e4 h4. sym (ap (λ r. r.0.sent) h4) ∙ recv_response-sent s e1

seal-ok :
    (c : Crypto) (what label : Text) (key plaintext : List ℕ) {ciphertext : List ℕ}
    → seal c what label key plaintext ≡ ok ciphertext
    → c.encrypt key (pairing_nonce label) plaintext ≡ some ciphertext
unfolding seal
seal-ok c what label key plaintext h = ok_or-ok (c.encrypt key (pairing_nonce label) plaintext) _ h

-- When pair-verify completes, it has checked the accessory's signature against the key on file,
-- and the two requests it has sent name us by the identifier on file.
pub pair_verify-IsVerified :
    (c : Crypto) (paired : PairedDevice) (client_secret : List ℕ) (s : TcpStream) {s' : TcpStream}
    {key : List ℕ}
    → pair_verify c paired client_secret s ≡ (s', ok key)
    → IsVerified c paired.accessory_ltpk paired.client_ltsk paired.client_pairing_id client_secret s
        s' key
unfolding pair_verify verify_m3_sub_tlv client_info
pair_verify-IsVerified c paired client_secret s {s'} {key} h0 = step_then _ _ h0 λ s1 done1 e1 h1.
    step_then _ _ h1 λ s2 m2 e2 h2. value_then s2 _ _ h2 λ server_epk_bytes e3 h3.
      value_then s2 _ _ h3 λ m2_encrypted e4 h4. value_then s2 _ _ h4 λ server_epk e5 h5.
        value_then s2 _ _ h5 λ session_key e6 h6. value_then s2 _ _ h6 λ key_arr e7 h7.
          value_then s2 _ _ h7 λ m2_plain e8 h8. value_then s2 _ _ h8 λ m2_sub e9 h9.
            value_then s2 _ _ h9 λ server_id e10 h10. value_then s2 _ _ h10 λ server_sig e11 h11.
              value_then s2 _ _ h11 λ verified e12 h12. value_then s2 _ _ h12 λ encrypted e13 h13.
                step_then _ _ h13 λ s3 done3 e14 h14. step_then _ _ h14 λ s4 m4 e15 h15.
                  let epk = array_of-ok 32 server_epk_bytes _ e5 in
                  subst
                    (λ r.
                      IsVerified c paired.accessory_ltpk paired.client_ltsk paired.client_pairing_id
                        client_secret s r key)
                    (ap (λ r. r.0) h15)
                    (subst
                      (λ k.
                        IsVerified c paired.accessory_ltpk paired.client_ltsk
                          paired.client_pairing_id client_secret s s4 k)
                      (pure-ok h15)
                      (record {
                        server_epk = server_epk_bytes;
                        m2_encrypted = m2_encrypted;
                        plaintext = m2_plain;
                        items = m2_sub;
                        server_id = server_id;
                        signature = server_sig;
                        encrypted = encrypted;
                        key_derived =
                            ap
                              (λ epk'.
                                c.hkdf_expand (codes "Pair-Verify-Encrypt-Salt")
                                  (c.diffie_hellman client_secret epk')
                                  (codes "Pair-Verify-Encrypt-Info") 32)
                              epk.0
                            ∙ hkdf_derive-ok c _ (c.diffie_hellman client_secret server_epk) _ 32 e6
                            ∙ ap some (array_of-ok 32 session_key _ e7).0;
                        decrypted = unseal-ok c _ _ key_arr m2_encrypted e8;
                        decoded = e9;
                        identified = required-ok m2_sub tag_identifier _ e10;
                        signed = required-ok m2_sub tag_signature _ e11;
                        verified = verify_signature-ok c paired.accessory_ltpk _ server_sig e12;
                        answered = seal-ok c _ _ key_arr _ e13;
                        sent =
                            recv_message-sent 4 s3 e15
                            ∙ send_post-sent (codes "/pair-verify") octet_stream _ s2 e14
                            ∙ ap
                                (λ sent.
                                  sent
                                  ++ request (codes "/pair-verify") octet_stream
                                      (m3_message c encrypted))
                                (recv_message-sent 2 s1 e2
                                  ∙ send_post-sent (codes "/pair-verify") octet_stream _ s e1);
                      }))

-- A pairing that was set up and is then verified: the accessory has signed the exchange with the
-- key that it signed for in pair-setup, and it was answered with the identifier and the key that
-- pair-setup was given for us.
pub pair_verify-after_setup :
    (c : Crypto) (pin : Text) (a : ℕ) (client_ltsk : List ℕ) (client_pairing_id : Text)
    (s1 : TcpStream) {s1' : TcpStream} {r : PairSetupResult}
    → pair_setup c pin a client_ltsk client_pairing_id s1 ≡ (s1', ok r)
    → (client_secret : List ℕ) (s2 : TcpStream) {s2' : TcpStream} {key : List ℕ}
    → pair_verify c (paired_device_from r) client_secret s2 ≡ (s2', ok key)
    → (session_key : List ℕ) × IsAuthenticated c session_key r
      × IsVerified c r.accessory_ltpk client_ltsk client_pairing_id client_secret s2 s2' key
unfolding paired_device_from
pair_verify-after_setup c pin a client_ltsk client_pairing_id s1 {s1'} {r} setup client_secret s2
      {s2'} {key} verified =
    let (session_key, _, _, authenticated, _, id, ltsk) =
      pair_setup-checks c pin a client_ltsk client_pairing_id s1 setup in
    (
      session_key,
      authenticated,
      subst (λ k. IsVerified c r.accessory_ltpk k client_pairing_id client_secret s2 s2' key) ltsk
          (subst (λ n. IsVerified c r.accessory_ltpk r.client_ltsk n client_secret s2 s2' key) id
            (pair_verify-IsVerified c (paired_device_from r) client_secret s2 verified)),
    )
