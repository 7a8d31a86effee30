-- ===== src/Airplay/Pairing/Setup/Proof.antt =====
-- crates/openplay-airplay/src/hap_pairing.rs: the proof of the PIN that a pair-setup has checked.
use openplay.Airplay.Pairing.Http.{send_pair_setup, recv_pair_setup}
use openplay.Prelude.{err, inl, inr}
use openplay.Airplay.Srp.{SrpError, ClientSession, client_compute}
use openplay.Prelude.{
  some, ok, List, ℕ, Text, ◌≡◌, arith, ◌∙◌, ap, sym, Bool, Option-cases, Result, text_eq_iff,
}
use openplay.Airplay.Stream.{TcpStream}
use openplay.Airplay.Tlv8.{Tlv8Item, lookup}
use openplay.Airplay.Tlv8.Tags.{tag_public_key, tag_salt, tag_proof}
use openplay.Airplay.Pairing.{Crypto}
use openplay.Airplay.Pairing.Items.{required}
use openplay.Airplay.Pairing.Steps.{step_then, value_then}
use openplay.Airplay.Pairing.Setup.{
  srp_result, client_from, pair_setup_username, pair_setup_srp, client_for, check_proof, m1_message,
  recv_message, m3_message,
}

-- The server showed that it knows the PIN: it answered M1 with a salt and a public key, and M3 with
-- the proof that the client computed from them and the PIN.
pub record IsProven (c : Crypto) (pin : Text) (transient : Bool) (a : ℕ) (s s' : TcpStream)
    (session_key : List ℕ) : Type 0 where
  pub m2 : List Tlv8Item
  pub m4 : List Tlv8Item
  pub salt : List ℕ
  pub server_pk : List ℕ
  pub client : ClientSession
  pub after_m1 : TcpStream
  pub after_m2 : TcpStream
  pub after_m3 : TcpStream
  pub sent_m1 : send_pair_setup (m1_message transient) s ≡ (after_m1, ok tt)
  pub read_m2 : recv_message 2 recv_pair_setup after_m1 ≡ (after_m2, ok m2)
  pub sent_m3 : send_pair_setup (m3_message client) after_m2 ≡ (after_m3, ok tt)
  pub read_m4 : recv_message 4 recv_pair_setup after_m3 ≡ (s', ok m4)
  pub salt_sent : lookup m2 tag_salt ≡ some salt
  pub key_sent : lookup m2 tag_public_key ≡ some server_pk
  pub computed : client_compute c.primitives pair_setup_username pin salt server_pk a ≡ ok client
  pub proof_sent : lookup m4 tag_proof ≡ some client.expected_m2
  pub key_is : session_key ≡ client.session_key

srp_result-ok :
    (r : Result ClientSession SrpError) {client : ClientSession}
    → srp_result r ≡ ok client
    → r ≡ ok client
unfolding srp_result
srp_result-ok (ok a) h = ground arith
srp_result-ok (err e) h = absurd (ground arith)

client_for-ok :
    (c : Crypto) (pin : Text) (a : ℕ) (m2 : List Tlv8Item) {client : ClientSession}
    → client_for c pin a m2 ≡ ok client
    → (server_pk salt : List ℕ) × (lookup m2 tag_public_key ≡ some server_pk)
      × (lookup m2 tag_salt ≡ some salt)
      × (client_compute c.primitives pair_setup_username pin salt server_pk a ≡ ok client)
unfolding client_for client_from
client_for-ok c pin a m2 {client} h = elim (Option-cases (lookup m2 tag_public_key)) [
  | inl missing_key ↦ absurd (ground arith)
  | inr (server_pk, e1) ↦ elim (Option-cases (lookup m2 tag_salt)) [
    | inl missing_salt ↦ absurd (ground arith)
    | inr (salt, e2) ↦ (
      server_pk,
      salt,
      e1,
      e2,
      srp_result-ok _ (sym (λ i. client_from c pin a (e1 i) (e2 i)) ∙ h),
    )
  ]
]

check_proof-ok :
    (client : ClientSession) (m4 : List Tlv8Item) {key : List ℕ}
    → check_proof client m4 ≡ ok key
    → (lookup m4 tag_proof ≡ some client.expected_m2) × (key ≡ client.session_key)
unfolding check_proof required
check_proof-ok client m4 {key} h = elim (Option-cases (lookup m4 tag_proof)) [
  | inl missing_proof ↦ absurd (ground arith)
  | inr (proof, e) ↦ ground (arith, text_eq_iff proof client.expected_m2)
]

pub pair_setup_srp-IsProven :
    (c : Crypto) (pin : Text) (transient : Bool) (a : ℕ) (s : TcpStream) {s' : TcpStream}
    {key : List ℕ}
    → pair_setup_srp c pin transient a s ≡ (s', ok key)
    → IsProven c pin transient a s s' key
unfolding pair_setup_srp
pair_setup_srp-IsProven c pin transient a s h0 = step_then _ _ h0 λ s1 done1 e1 h1.
    step_then _ _ h1 λ s2 m2 e2 h2. value_then s2 _ _ h2 λ client e3 h3.
      step_then _ _ h3 λ s4 done4 e4 h4. step_then _ _ h4 λ s5 m4 e5 h5.
        let (server_pk, salt, key_sent, salt_sent, computed) = client_for-ok c pin a m2 e3 in
        let (proof_sent, key_is) = check_proof-ok client m4 (ap (λ r. r.1) h5) in
        record {
          m2 = m2;
          m4 = m4;
          salt = salt;
          server_pk = server_pk;
          client = client;
          after_m1 = s1;
          after_m2 = s2;
          after_m3 = s4;
          sent_m1 = e1;
          read_m2 = e2;
          sent_m3 = e4;
          read_m4 = e5 ∙ ap (λ r. (r.0, ok m4)) h5;
          salt_sent = salt_sent;
          key_sent = key_sent;
          computed = computed;
          proof_sent = proof_sent;
          key_is = key_is;
        }
