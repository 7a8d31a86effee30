-- ===== src/Airplay/Srp/Agreement.antt =====
-- crates/openplay-airplay/src/srp.rs: what `client_compute` answers.
use Prim.Native.Nat.{bit_xor}
use openplay.Prelude.Utf8.{as_bytes}
use openplay.Prelude.{[]}
use openplay.Prelude.{inl, inr, true}
use openplay.Prelude.{refl}
use openplay.Prelude.{
  ok, err, ℕ, Text, List, ◌≡◌, ◌↔◌, ◌%◌, ap, ◌∙◌, ◌≢◌, arith, ◌⊎◌, sym, subst, ◌++◌, ◌∷◌,
}
use openplay.Airplay.Srp.{
  Primitives, IsLawful, ClientSession, shared_u, client_session, b_is_zero, u_is_zero,
  client_compute, group_n, srp_g, pad_to_n, multiplier, private_x, is_zero_value, client_secret,
  proof_m1, proof_m2, scrambler, xor_bytes,
}
use openplay.Airplay.Srp.Server.{RefServer, new, finish, server_secret, xored, server_m1}
use openplay.Airplay.Srp.Secret.{
  from-pad_to_n, is_zero_value-false, is_zero_value-true, client_secret-server_secret,
}

xored-xor_bytes : (l r : List ℕ) → xored l r ≡ xor_bytes l r
unfolding xored xor_bytes
xored-xor_bytes [] r = refl
xored-xor_bytes (a ∷ l) [] = refl
xored-xor_bytes (a ∷ l) (b ∷ r) = ap (λ t. bit_xor a b ∷ t) (xored-xor_bytes l r)

server_m1-proof_m1 :
    (p : Primitives) (username : Text) (salt a_padded b_padded key : List ℕ)
    → server_m1 p username salt a_padded b_padded key
      ≡ proof_m1 p group_n srp_g username salt a_padded b_padded key
unfolding server_m1 proof_m1
server_m1-proof_m1 p username salt a_padded b_padded key =
    ap (λ x. p.sha512 (x ++ p.sha512 (as_bytes username) ++ salt ++ a_padded ++ b_padded ++ key))
      (xored-xor_bytes (p.sha512 (p.to_bytes_be group_n)) (p.sha512 (p.to_bytes_be srp_g)))

module _ (p : Primitives) (lawful : IsLawful p) where
  open p use {modpow, from_bytes_be, sha512}

  module _ (username password : Text) (salt : List ℕ) (a b : ℕ) where
    key_agrees :
        (server_public : List ℕ)
        → from_bytes_be server_public ≡ (new p username password salt b).big_b
        → client_secret p group_n srp_g
            (from_bytes_be server_public)
            a
            (shared_u p a (from_bytes_be server_public))
            (private_x p username password salt)
            (multiplier p group_n srp_g)
          ≡ server_secret p group_n
              (modpow srp_g a group_n)
              (new p username password salt b).v
              (shared_u p a (new p username password salt b).big_b)
              b
    unfolding new private_x multiplier
    key_agrees server_public h =
        ap (λ y. client_secret p group_n srp_g y a (shared_u p a y) x k) h
        ∙ client_secret-server_secret p lawful group_n srp_g a b
            (shared_u p a (new p username password salt b).big_b) x k (omega arith)
      where
        x : ℕ
        x = private_x p username password salt

        k : ℕ
        k = multiplier p group_n srp_g

    proofs_agree :
        (server_public : List ℕ)
        → from_bytes_be server_public ≡ (new p username password salt b).big_b
        → let c =
            client_session p username salt
              (from_bytes_be server_public)
              a
              (shared_u p a (from_bytes_be server_public))
              (private_x p username password salt)
              (multiplier p group_n srp_g) in
          (c.m1, c.expected_m2) ≡ finish p (new p username password salt b) username c.public_a
    unfolding finish client_session shared_u new scrambler proof_m2
    proofs_agree server_public h =
        (λ i. proofs (h i) (key_agrees server_public h i))
        ∙ ap
            (λ big_a.
              proofs server.big_b
                (server_secret p group_n big_a server.v (shared_u p a server.big_b) b))
            (sym (from-pad_to_n p lawful (modpow srp_g a group_n) group_n))
        ∙ ap (λ m. (m, sha512 (a_padded ++ m ++ key)))
            (sym
              (server_m1-proof_m1 p username salt a_padded (pad_to_n p server.big_b group_n) key))
      where
        server : RefServer
        server = new p username password salt b

        a_padded : List ℕ
        a_padded = pad_to_n p (modpow srp_g a group_n) group_n

        -- The key of the server, which reads `A` back.
        key : List ℕ
        key = sha512 (
            pad_to_n p
              (server_secret p group_n (from_bytes_be a_padded) server.v (shared_u p a server.big_b)
                b)
              group_n)

        m1_for : (big_b s : ℕ) → List ℕ
        m1_for big_b s =
            proof_m1 p group_n srp_g username salt a_padded (pad_to_n p big_b group_n)
              (sha512 (pad_to_n p s group_n))

        proofs : (big_b s : ℕ) → List ℕ × List ℕ
        proofs big_b s =
            (m1_for big_b s, proof_m2 p a_padded (m1_for big_b s) (sha512 (pad_to_n p s group_n)))

    -- For the salt and the password that the server keeps the verifier of, and for its public
    -- value, when neither that value nor `u` is zero: the client succeeds, its `A` is the padded
    -- power of the generator, and its proof `M1` and the proof `M2` that it expects are those that
    -- the server computes from this `A`.
    pub client_compute-finish :
        (server_public : List ℕ)
        → from_bytes_be server_public ≡ (new p username password salt b).big_b
        → from_bytes_be server_public % group_n ≢ 0
        → shared_u p a (from_bytes_be server_public) ≢ 0
        → (c : ClientSession) × (client_compute p username password salt server_public a ≡ ok c)
          × (c.public_a ≡ pad_to_n p (modpow srp_g a group_n) group_n)
          × ((c.m1, c.expected_m2) ≡ finish p (new p username password salt b) username c.public_a)
    unfolding client_compute client_session
    client_compute-finish server_public h bne une = (
      client_session p username salt (from_bytes_be server_public) a
          (shared_u p a (from_bytes_be server_public)) (private_x p username password salt)
          (multiplier p group_n srp_g),
      rw
          (
            is_zero_value-false p lawful (from_bytes_be server_public % group_n) bne,
            is_zero_value-false p lawful (shared_u p a (from_bytes_be server_public)) une,
          )
          refl,
      refl,
      proofs_agree server_public h,
    )

  is_zero_value_iff : (value : ℕ) → (is_zero_value p value ≡ true) ↔ (value ≡ 0)
  is_zero_value_iff value = (
    λ h. elim (zero-cases value) [
      | inl z ↦ z
      | inr ne ↦ absurd (ground (arith, h, is_zero_value-false p lawful value ne))
    ],
    λ z. subst (λ v. is_zero_value p v ≡ true) (sym z) (is_zero_value-true p lawful),
  )
    where
      zero-cases : (v : ℕ) → (v ≡ 0) ⊎ (v ≢ 0)
      zero-cases v = ground arith

  -- The two answers of a broken or hostile server that must be refused are refused, each with
  -- its error, and nothing else is.
  pub client_compute-err_iff :
      (username password : Text) (salt server_public : List ℕ) (a : ℕ)
      → ((client_compute p username password salt server_public a ≡ err b_is_zero)
          ↔ (from_bytes_be server_public % group_n ≡ 0))
        × ((client_compute p username password salt server_public a ≡ err u_is_zero) ↔ (
            (from_bytes_be server_public % group_n ≢ 0)
            × (shared_u p a (from_bytes_be server_public) ≡ 0)))
  unfolding client_compute
  client_compute-err_iff username password salt server_public a = ground (
    arith,
    is_zero_value_iff (from_bytes_be server_public % group_n),
    is_zero_value_iff (shared_u p a (from_bytes_be server_public)),
  )
