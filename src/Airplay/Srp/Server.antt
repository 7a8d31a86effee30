-- ===== src/Airplay/Srp/Server.antt =====
-- crates/openplay-airplay/src/srp.rs: `RefServer`, the server side of SRP-6a that the tests of the
-- client are written against.
use Prim.Native.Nat.{bit_xor}
use openplay.Prelude.Utf8.{as_bytes}
use openplay.Prelude.{[]}
use openplay.Prelude.{List, Text, ℕ, ◌%◌, ◌*◌, ◌+◌, ◌++◌, ◌∷◌}
use openplay.Airplay.Srp.{Primitives, group_n, srp_g, pad_to_n}

pub record RefServer : Type 0 where
  pub salt : List ℕ
  pub v : ℕ
  pub b : ℕ
  pub big_b : ℕ

-- `zip` and `map` with the exclusive or.
unfoldable pub xored : List ℕ → List ℕ → List ℕ
xored (l ∷ ls) (r ∷ rs) = bit_xor l r ∷ xored ls rs
xored _ _ = []

module _ (p : Primitives) where
  open p use {modpow, from_bytes_be, to_bytes_be, sha512}

  unfoldable pub new : (username password : Text) (salt : List ℕ) (b : ℕ) → RefServer
  new username password salt b =
      let inner = sha512 (as_bytes username ++ (0x3a ∷ as_bytes password)) in
      let x = from_bytes_be (sha512 (salt ++ inner)) in
      let v = modpow srp_g x group_n in
      let k = from_bytes_be (sha512 (to_bytes_be group_n ++ pad_to_n p srp_g group_n)) in
      record { salt = salt; v = v; b = b; big_b = (k * v + modpow srp_g b group_n) % group_n }

  unfoldable pub server_secret : (n big_a v u b : ℕ) → ℕ
  server_secret n big_a v u b = modpow ((big_a * modpow v u n) % n) b n

  unfoldable pub server_m1 : (username : Text) (salt a_padded b_padded key : List ℕ) → List ℕ
  unfolding xored
  server_m1 username salt a_padded b_padded key =
      let hash_n = sha512 (to_bytes_be group_n) in
      let hash_g = sha512 (to_bytes_be srp_g) in
      sha512
        (xored hash_n hash_g ++ sha512 (as_bytes username) ++ salt ++ a_padded ++ b_padded ++ key)

  unfoldable pub finish : RefServer → (username : Text) (a_padded : List ℕ) → List ℕ × List ℕ
  unfolding server_secret server_m1
  finish server username a_padded =
      let big_a = from_bytes_be a_padded in
      let b_padded = pad_to_n p server.big_b group_n in
      let u = from_bytes_be (sha512 (a_padded ++ b_padded)) in
      let s = server_secret group_n big_a server.v u server.b in
      let key = sha512 (pad_to_n p s group_n) in
      let m1 = server_m1 username server.salt a_padded b_padded key in
      (m1, sha512 (a_padded ++ m1 ++ key))
