-- ===== src/Airplay/Pairing/Setup/Identity.antt =====
-- crates/openplay-airplay/src/hap_pairing.rs: what a completed pair-setup has checked.
use openplay.Airplay.Pairing.Http.{send_pair_setup, recv_pair_setup}
use openplay.Prelude.{false}
use openplay.Prelude.{refl}
use openplay.Prelude.{
  some, ok, true, List, ℕ, Text, codes, ◌≡◌, length, arith, subst, ◌∙◌, ap, Result,
}
use openplay.Prelude.Utf8.{from_utf8_lossy}
use openplay.Airplay.Stream.{TcpStream}
use openplay.Airplay.Tlv8.{Tlv8Item, lookup}
use openplay.Airplay.Tlv8.Tags.{tag_public_key, tag_identifier, tag_signature, tag_encrypted_data}
use openplay.Airplay.Pairing.{Crypto, PairSetupResult, hkdf_derive, pairing_nonce, HapError}
use openplay.Airplay.Pairing.Items.{required, decode_items}
use openplay.Airplay.Pairing.Steps.{step_then, value_then, array_of-ok, ok_or-ok, pure-ok}
use openplay.Airplay.Pairing.Setup.{
  verify_signature, accessory_info, pair_setup_identity_exchange, unseal, pair_setup, m5_sub_tlv,
  seal, m5_message, recv_message,
}
use openplay.Airplay.Pairing.Setup.Proof.{IsProven, pair_setup_srp-IsProven}

pub required-ok :
    (items : List Tlv8Item) (tag : ℕ) (what : Text) {v : List ℕ}
    → required items tag what ≡ ok v
    → lookup items tag ≡ some v
unfolding required
required-ok items tag what h = ok_or-ok (lookup items tag) _ h

pub verify_signature-ok :
    (c : Crypto) (key message signature : List ℕ) {u : Unit {0}}
    → verify_signature c key message signature ≡ ok u
    → c.verify key message signature ≡ true
unfolding verify_signature
verify_signature-ok c key message signature h = ground arith

pub hkdf_derive-ok :
    (c : Crypto) (salt : Text) (ikm : List ℕ) (info : Text) (len : ℕ) {key : List ℕ}
    → hkdf_derive c salt ikm info len ≡ ok key
    → c.hkdf_expand salt ikm info len ≡ some key
unfolding hkdf_derive
hkdf_derive-ok c salt ikm info len h = ok_or-ok (c.hkdf_expand salt ikm info len) _ h

pub unseal-ok :
    (c : Crypto) (what label : Text) (key ciphertext : List ℕ) {plaintext : List ℕ}
    → unseal c what label key ciphertext ≡ ok plaintext
    → c.decrypt key (pairing_nonce label) ciphertext ≡ some plaintext
unfolding unseal
unseal-ok c what label key ciphertext h =
    ok_or-ok (c.decrypt key (pairing_nonce label) ciphertext) _ h

-- The accessory proved who it is: under the key of this session it sent its identifier and its
-- public key, with a signature over both and a value derived from the session.
pub record IsAuthenticated (c : Crypto) (session_key : List ℕ) (r : PairSetupResult) : Type 0 where
  pub enc_key : List ℕ
  pub ciphertext : List ℕ
  pub plaintext : List ℕ
  pub items : List Tlv8Item
  pub identifier : List ℕ
  pub signature : List ℕ
  pub accessory_x : List ℕ
  pub key_derived :
      c.hkdf_expand
        (codes "Pair-Setup-Encrypt-Salt")
        session_key
        (codes "Pair-Setup-Encrypt-Info")
        32
      ≡ some enc_key
  pub decrypted : c.decrypt enc_key (pairing_nonce (codes "PS-Msg06")) ciphertext ≡ some plaintext
  pub decoded : decode_items plaintext ≡ ok items
  pub identified : lookup items tag_identifier ≡ some identifier
  pub keyed : lookup items tag_public_key ≡ some r.accessory_ltpk
  pub signed : lookup items tag_signature ≡ some signature
  pub sized : length r.accessory_ltpk ≡ 32
  pub x_derived :
      c.hkdf_expand
        (codes "Pair-Setup-Accessory-Sign-Salt")
        session_key
        (codes "Pair-Setup-Accessory-Sign-Info")
        32
      ≡ some accessory_x
  pub verified :
      c.verify r.accessory_ltpk (accessory_info c accessory_x identifier r.accessory_ltpk) signature
      ≡ true
  pub named : r.accessory_id ≡ from_utf8_lossy identifier

-- The exchange on the stream: M5, with our identifier and key sealed under the session, goes out,
-- and what the peer answers is an M6 that carries the ciphertext.
pub record IsExchange (c : Crypto) (session_key client_ltsk : List ℕ) (client_pairing_id : Text)
    (enc_key ciphertext : List ℕ) (s s' : TcpStream) : Type 0 where
  pub device_x : List ℕ
  pub encrypted : List ℕ
  pub m6 : List Tlv8Item
  pub waiting : TcpStream
  pub x_derived :
      c.hkdf_expand
        (codes "Pair-Setup-Controller-Sign-Salt")
        session_key
        (codes "Pair-Setup-Controller-Sign-Info")
        32
      ≡ some device_x
  pub sealed :
      c.encrypt enc_key
        (pairing_nonce (codes "PS-Msg05"))
        (m5_sub_tlv c client_ltsk client_pairing_id device_x)
      ≡ some encrypted
  pub sent_m5 : send_pair_setup (m5_message c encrypted) s ≡ (waiting, ok tt)
  pub read_m6 : recv_message 6 recv_pair_setup waiting ≡ (s', ok m6)
  pub carried : lookup m6 tag_encrypted_data ≡ some ciphertext

seal-ok :
    (c : Crypto) (what label : Text) (key plaintext : List ℕ) {sealed : List ℕ}
    → seal c what label key plaintext ≡ ok sealed
    → c.encrypt key (pairing_nonce label) plaintext ≡ some sealed
unfolding seal
seal-ok c what label key plaintext h = ok_or-ok (c.encrypt key (pairing_nonce label) plaintext) _ h

pure-stream :
    {A : Type 0} {s s' : TcpStream} {a b : A}
    → ◌≡◌ {A = TcpStream × Result A HapError} (s, ok a) (s', ok b)
    → s ≡ s'
pure-stream h = ap (λ r. r.0) h

-- What an identity exchange has shown, of the result that it hands on.
abbrev Exchanged :
    Crypto
    → (session_key client_ltsk : List ℕ) (client_pairing_id : Text) (s s' : TcpStream)
    → PairSetupResult
    → Type 0
Exchanged c session_key client_ltsk client_pairing_id s s' r =
    (auth : IsAuthenticated c session_key r) × IsExchange c session_key client_ltsk
      client_pairing_id auth.enc_key auth.ciphertext s s'
    × (r.client_pairing_id ≡ client_pairing_id)
    × (r.client_ltsk ≡ client_ltsk)
    × (r.client_ltpk ≡ c.verifying_key client_ltsk)

carry :
    (c : Crypto) (session_key client_ltsk : List ℕ) (client_pairing_id : Text) (s : TcpStream)
    {s' : TcpStream} {q r : PairSetupResult}
    → q ≡ r
    → Exchanged c session_key client_ltsk client_pairing_id s s' q
    → Exchanged c session_key client_ltsk client_pairing_id s s' r
carry c session_key client_ltsk client_pairing_id s {s'} same h =
    subst (Exchanged c session_key client_ltsk client_pairing_id s s') same h

-- When pair-setup completes, the accessory has authenticated itself, and the result holds our own
-- keys and our own pairing identifier.
pub pair_setup_identity_exchange-IsAuthenticated :
    (c : Crypto) (session_key client_ltsk : List ℕ) (client_pairing_id : Text) (s : TcpStream)
    {s' : TcpStream} {r : PairSetupResult}
    → pair_setup_identity_exchange c session_key client_ltsk client_pairing_id s ≡ (s', ok r)
    → (auth : IsAuthenticated c session_key r) × IsExchange c session_key client_ltsk
        client_pairing_id auth.enc_key auth.ciphertext s s'
      × (r.client_pairing_id ≡ client_pairing_id)
      × (r.client_ltsk ≡ client_ltsk)
      × (r.client_ltpk ≡ c.verifying_key client_ltsk)
unfolding pair_setup_identity_exchange
pair_setup_identity_exchange-IsAuthenticated c session_key client_ltsk client_pairing_id s h0 =
    value_then s _ _ h0 λ enc_key e1 h1. value_then s _ _ h1 λ device_x e2 h2.
      value_then s _ _ h2 λ enc_key_arr e3 h3. value_then s _ _ h3 λ encrypted e4 h4.
        step_then _ _ h4 λ s5 done e5 h5. step_then _ _ h5 λ s6 m6 e6 h6.
          value_then s6 _ _ h6 λ m6_encrypted e7 h7. value_then s6 _ _ h7 λ m6_decrypted e8 h8.
            value_then s6 _ _ h8 λ m6_sub e9 h9. value_then s6 _ _ h9 λ accessory_id e10 h10.
              value_then s6 _ _ h10 λ accessory_ltpk e11 h11.
                value_then s6 _ _ h11 λ accessory_sig e12 h12.
                  value_then s6 _ _ h12 λ accessory_x e13 h13.
                    value_then s6 _ _ h13 λ accessory_pk e14 h14.
                      value_then s6 _ _ h14 λ verified e15 h15.
                        let array = array_of-ok 32 accessory_ltpk _ e14 in
                        carry c session_key client_ltsk client_pairing_id s (pure-ok h15) (
                          (record {
                            enc_key = enc_key_arr;
                            ciphertext = m6_encrypted;
                            plaintext = m6_decrypted;
                            items = m6_sub;
                            identifier = accessory_id;
                            signature = accessory_sig;
                            accessory_x = accessory_x;
                            key_derived =
                                hkdf_derive-ok c _ session_key _ 32 e1
                                ∙ ap some (array_of-ok 32 enc_key _ e3).0;
                            decrypted = unseal-ok c _ _ enc_key_arr m6_encrypted e8;
                            decoded = e9;
                            identified = required-ok m6_sub tag_identifier _ e10;
                            keyed = required-ok m6_sub tag_public_key _ e11 ∙ ap some array.0;
                            signed = required-ok m6_sub tag_signature _ e12;
                            sized = array.1;
                            x_derived = hkdf_derive-ok c _ session_key _ 32 e13;
                            verified =
                                subst
                                  (λ ltpk.
                                    c.verify accessory_pk
                                      (accessory_info c accessory_x accessory_id ltpk) accessory_sig
                                    ≡ true)
                                  array.0 (verify_signature-ok c accessory_pk _ accessory_sig e15);
                            named = refl;
                          }),
                          record {
                            device_x = device_x;
                            encrypted = encrypted;
                            m6 = m6;
                            waiting = s5;
                            x_derived = hkdf_derive-ok c _ session_key _ 32 e2;
                            sealed = seal-ok c _ _ enc_key_arr _ e4;
                            sent_m5 = e5;
                            read_m6 = e6 ∙ ap (λ t. (t, ok m6)) (pure-stream h15);
                            carried = required-ok m6 tag_encrypted_data _ e7;
                          },
                          refl,
                          refl,
                          refl,
                        )

-- A pairing that completes has checked both proofs, in what the peer answered on the stream. M1 went
-- out, and the answer M2 brought a salt and a public key; M3 went out, and the answer M4 brought the
-- proof that only the PIN gives with them. Under the session key of that exchange M5 went out, and the
-- answer M6 brought, sealed, an identifier and a key with a signature for both; these are the ones
-- that are kept. The identifier and the signing key that are kept for us are those that it was given.
pub pair_setup-checks :
    (c : Crypto) (pin : Text) (a : ℕ) (client_ltsk : List ℕ) (client_pairing_id : Text)
    (s : TcpStream) {s' : TcpStream} {r : PairSetupResult}
    → pair_setup c pin a client_ltsk client_pairing_id s ≡ (s', ok r)
    → (session_key : List ℕ) × (after_m4 : TcpStream) × IsProven c pin false a s after_m4
        session_key
      × (auth : IsAuthenticated c session_key r) × IsExchange c session_key client_ltsk
          client_pairing_id auth.enc_key auth.ciphertext after_m4 s'
      × (r.client_pairing_id ≡ client_pairing_id)
      × (r.client_ltsk ≡ client_ltsk)
unfolding pair_setup
pair_setup-checks c pin a client_ltsk client_pairing_id s h0 =
    step_then _ _ h0 λ s1 session_key e1 h1.
      let (authenticated, exchanged, id, ltsk, _) =
        pair_setup_identity_exchange-IsAuthenticated c session_key client_ltsk client_pairing_id s1
          h1 in
      (
        session_key,
        s1,
        pair_setup_srp-IsProven c pin false a s e1,
        authenticated,
        exchanged,
        id,
        ltsk,
      )
