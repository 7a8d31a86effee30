-- ===== src/Airplay/Srp.antt =====
-- crates/openplay-airplay/src/srp.rs: the client half of SRP-6a. A `BigUint` is its number; the
-- functions of num-bigint and sha2 that the code calls are an interface.
use openplay.Prelude.{
  ok, err, [], if◌then◌else◌, List, ℕ, Text, length, Result, ◌*◌, Bool, ◌++◌, ◌<◌, ◌≡◌, leb, ◌∷◌,
  ◌%◌, text_eq, replicate, ◌^◌, ◌+◌, ◌-◌,
}
pub mod Server
pub mod Secret
pub mod Agreement
pub mod Toy
mod Examples
use openplay.Prelude.Utf8.{as_bytes}
use Prim.Native.Nat.{bit_xor}

-- `sha512` stands for a digest over the bytes of all its updates, in order.
pub record Primitives : Type 0 where
  pub modpow : (base exponent modulus : ℕ) → ℕ
  pub from_bytes_be : List ℕ → ℕ
  pub to_bytes_be : ℕ → List ℕ
  pub sha512 : List ℕ → List ℕ

-- What num-bigint documents of them.
pub record IsLawful (p : Primitives) : Type 0 where
  pub modpow_lem : (g e n : ℕ) → 0 < n → p.modpow g e n ≡ g ^ e % n
  pub from-to : (n : ℕ) → p.from_bytes_be (p.to_bytes_be n) ≡ n
  pub from-zero : (bytes : List ℕ) → p.from_bytes_be (0 ∷ bytes) ≡ p.from_bytes_be bytes
  pub to-zero : p.to_bytes_be 0 ≡ 0 ∷ []

pub data SrpError : Type 0 where
  b_is_zero : SrpError
  u_is_zero : SrpError

pub record ClientSession : Type 0 where
  pub public_a : List ℕ
  pub m1 : List ℕ
  pub session_key : List ℕ
  pub expected_m2 : List ℕ

-- `SRP_N_HEX`, as `group_n` parses it.
abbrev pub group_n : ℕ
group_n =
    0xFFFFFFFFFFFFFFFFC90FDAA22168C234C4C6628B80DC1CD129024E088A67CC74020BBEA63B139B22514A08798E3404DDEF9519B3CD3A431B302B0A6DF25F14374FE1356D6D51C245E485B576625E7EC6F44C42E9A637ED6B0BFF5CB6F406B7EDEE386BFB5A899FA5AE9F24117C4B1FE649286651ECE45B3DC2007CB8A163BF0598DA48361C55D39A69163FA8FD24CF5F83655D23DCA3AD961C62F356208552BB9ED529077096966D670C354E4ABC9804F1746C08CA18217C32905E462E36CE3BE39E772C180E86039B2783A2EC07A28FB5C55DF06F4C52C9DE2BCBF6955817183995497CEA956AE515D2261898FA051015728E5A8AAAC42DAD33170D04507A33A85521ABDF1CBA64ECFB850458DBEF0A8AEA71575D060C7DB3970F85A6E1E4C7ABF5AE8CDB0933D71E8C94E04A25619DCEE3D2261AD2EE6BF12FFA06D98A0864D87602733EC86A64521F2B18177B200CBBE117577A615D6C770988C0BAD946E208E24FA074E5AB3143DB5BFCE0FD108E4B82D120A93AD2CAFFFFFFFFFFFFFFFF

abbrev pub srp_g : ℕ
srp_g = 5

-- `zip` with `^`.
unfoldable pub xor_bytes : List ℕ → List ℕ → List ℕ
xor_bytes (l ∷ ls) (r ∷ rs) = bit_xor l r ∷ xor_bytes ls rs
xor_bytes _ _ = []

module _ (p : Primitives) where
  open p use {modpow, from_bytes_be, to_bytes_be, sha512}

  unfoldable pub pad_to_n : (value n : ℕ) → List ℕ
  pad_to_n value n =
      let n_len = length (to_bytes_be n) in
      let bytes = to_bytes_be value in
      if leb n_len (length bytes) then bytes else replicate (n_len - length bytes) 0 ++ bytes

  -- `to_bytes_be() == [0]`.
  unfoldable pub is_zero_value : ℕ → Bool
  is_zero_value value = text_eq (to_bytes_be value) (0 ∷ [])

  unfoldable pub scrambler : (a_padded b_padded : List ℕ) → ℕ
  scrambler a_padded b_padded = from_bytes_be (sha512 (a_padded ++ b_padded))

  unfoldable pub private_x : (username password : Text) (salt : List ℕ) → ℕ
  private_x username password salt =
      let inner = sha512 (as_bytes username ++ (0x3a ∷ as_bytes password)) in
      from_bytes_be (sha512 (salt ++ inner))

  unfoldable pub multiplier : (n g : ℕ) → ℕ
  unfolding pad_to_n
  multiplier n g = from_bytes_be (sha512 (to_bytes_be n ++ pad_to_n g n))

  unfoldable pub client_secret : (n g big_b a u x k : ℕ) → ℕ
  client_secret n g big_b a u x k =
      let gx = modpow g x n in
      let kgx = (k * gx) % n in let base = (big_b + n - kgx) % n in modpow base (a + u * x) n

  unfoldable pub proof_m1 :
      (n g : ℕ) (username : Text) (salt a_padded b_padded session_key : List ℕ) → List ℕ
  unfolding xor_bytes
  proof_m1 n g username salt a_padded b_padded session_key =
      let hash_xor = xor_bytes (sha512 (to_bytes_be n)) (sha512 (to_bytes_be g)) in
      sha512 (hash_xor ++ sha512 (as_bytes username) ++ salt ++ a_padded ++ b_padded ++ session_key)

  unfoldable pub proof_m2 : (a_padded m1 session_key : List ℕ) → List ℕ
  proof_m2 a_padded m1 session_key = sha512 (a_padded ++ m1 ++ session_key)

  -- What the code derives from the public value of the server, `a`, `u`, `x` and `k`.
  unfoldable pub client_session :
      (username : Text) (salt : List ℕ) (big_b a u x k : ℕ) → ClientSession
  client_session username salt big_b a u x k =
      let a_padded = pad_to_n (modpow srp_g a group_n) group_n in
      let b_padded = pad_to_n big_b group_n in
      let big_s = client_secret group_n srp_g big_b a u x k in
      let session_key = sha512 (pad_to_n big_s group_n) in
      let m1 = proof_m1 group_n srp_g username salt a_padded b_padded session_key in
      record {
        public_a = a_padded;
        m1 = m1;
        session_key = session_key;
        expected_m2 = proof_m2 a_padded m1 session_key;
      }

  unfoldable pub shared_u : (a big_b : ℕ) → ℕ
  shared_u a big_b = scrambler (pad_to_n (modpow srp_g a group_n) group_n) (pad_to_n big_b group_n)

  unfoldable pub client_compute :
      (username password : Text) (salt server_public : List ℕ) (a : ℕ)
      → Result ClientSession SrpError
  client_compute username password salt server_public a =
      let big_b = from_bytes_be server_public in
      let u = shared_u a big_b in
      if is_zero_value (big_b % group_n)
      then err b_is_zero
      else if is_zero_value u
      then err u_is_zero
      else ok (
          client_session username salt big_b a u (private_x username password salt)
            (multiplier group_n srp_g))
