-- ===== src/Airplay/Pairing.antt =====
-- crates/openplay-airplay/src/hap_pairing.rs: pairing with an AirPlay receiver.
pub mod Http
pub mod Items
pub mod Setup
pub mod Verify
pub mod Steps
mod Examples
use openplay.Prelude.{if◌then◌else◌}
use openplay.Prelude.{ok, err, ℕ, Result, Text, Option, List, ok_or, Bool, length, ◌∷◌, ◌==◌, codes}
use openplay.Airplay.Tlv8.{DecodeError}
use openplay.Airplay.Srp.{SrpError, Primitives}
use openplay.Airplay.Stream.{TcpStream}

-- The `anyhow` errors, one constructor per message; `no_answer` is a call that never returns.
pub data HapError : Type 0 where
  io_failed connection_closed closed_mid_body no_answer empty_response : HapError
  http_status : (code : ℕ) → HapError
  tlv : DecodeError → HapError
  missing : Text → HapError
  unexpected_state : (got expected : ℕ) → HapError
  back_off : (retry_after : Option ℕ) → HapError
  hap_error : (code : ℕ) (msg : Text) → HapError
  srp : SrpError → HapError
  server_proof_failed : HapError
  crypto : Text → HapError

-- The functions of the crates that the pairing calls: hkdf, ed25519-dalek, chacha20poly1305 and
-- x25519-dalek, over bytes. What can fail there answers an Option or a Bool.
pub record Crypto : Type 0 where
  pub primitives : Primitives
  pub hkdf_expand : (salt ikm info : List ℕ) (len : ℕ) → Option (List ℕ)
  pub encrypt : (key nonce plaintext : List ℕ) → Option (List ℕ)
  pub decrypt : (key nonce ciphertext : List ℕ) → Option (List ℕ)
  pub verifying_key : (signing_key : List ℕ) → List ℕ
  pub sign : (signing_key message : List ℕ) → List ℕ
  pub is_verifying_key : List ℕ → Bool
  pub verify : (key message signature : List ℕ) → Bool
  pub x25519_public : (secret : List ℕ) → List ℕ
  pub diffie_hellman : (secret public : List ℕ) → List ℕ

pub record PairSetupResult : Type 0 where
  pub client_ltsk : List ℕ
  pub client_ltpk : List ℕ
  pub client_pairing_id : Text
  pub accessory_ltpk : List ℕ
  pub accessory_id : Text

pub record PairedDevice : Type 0 where
  pub device_id : Text
  pub client_pairing_id : Text
  pub accessory_ltpk : List ℕ
  pub client_ltsk : List ℕ
  pub client_ltpk : List ℕ

-- `impl From<PairSetupResult> for PairedDevice`.
unfoldable pub paired_device_from : PairSetupResult → PairedDevice
paired_device_from result = record {
  device_id = result.accessory_id;
  client_pairing_id = result.client_pairing_id;
  accessory_ltpk = result.accessory_ltpk;
  client_ltsk = result.client_ltsk;
  client_ltpk = result.client_ltpk;
}

-- What runs on the stream of a pairing.
abbrev pub Hap {ℓ} : Type ℓ → Type ℓ
Hap A = TcpStream → TcpStream × Result A HapError

module _ {ℓ κ} {A : Type ℓ} {B : Type κ} where
  unfoldable pub continue_on :
      TcpStream × Result A HapError → (A → Hap B) → TcpStream × Result B HapError
  continue_on (s, ok a) f = f a s
  continue_on (s, err e) f = (s, err e)

infixl 5 ◌>>=◌ ◌>>◌
abbrev pub ◌>>=◌ {ℓ κ} : {A : Type ℓ} {B : Type κ} → Hap A → (A → Hap B) → Hap B
m >>= f = λ s. continue_on (m s) f

abbrev pub ◌>>◌ {κ} : {B : Type κ} → Hap (Unit {0}) → Hap B → Hap B
m >> k = m >>= λ _. k

abbrev pub pure {ℓ} : {A : Type ℓ} → A → Hap A
pure a = λ s. (s, ok a)

-- `?` on a value that does not touch the stream.
abbrev pub lift {ℓ} : {A : Type ℓ} → Result A HapError → Hap A
lift r = λ s. (s, r)

-- `hkdf_derive`.
unfoldable pub hkdf_derive :
    Crypto → (salt : Text) (ikm : List ℕ) (info : Text) (len : ℕ) → Result (List ℕ) HapError
hkdf_derive c salt ikm info len =
    ok_or (c.hkdf_expand salt ikm info len) (crypto (codes "HKDF expand failed"))

-- `try_into` of a slice into an array.
unfoldable pub array_of : ℕ → List ℕ → HapError → Result (List ℕ) HapError
array_of n bytes e = if length bytes == n then ok bytes else err e

-- Four zeros in front of the label.
unfoldable pub pairing_nonce : Text → List ℕ
pairing_nonce label = 0 ∷ 0 ∷ 0 ∷ 0 ∷ label
