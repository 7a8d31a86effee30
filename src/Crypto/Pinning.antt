-- ===== src/Crypto/Pinning.antt =====
-- The pinned verifier accepts a certificate by its digest (crates/openplay-crypto/src/tls.rs).
use openplay.Prelude.{ok}
use openplay.Prelude.Strings.{hex_digit, hex_fixed, lower}
use openplay.Prelude.{
  true, refl, [], Text, List, ◌++◌, ℕ, ◌∷◌, length, All, ◌<◌, ◌≡◌, map, ◌*◌, ◌/◌, arith, ◌%◌, ◌∙◌,
  ◌↔◌, text_eq_iff,
}
use openplay.Crypto.{
  join_colon, certificate_fingerprint, normalise_fingerprint, verify_server_cert,
  client_config_pinned, is_ascii_hexdigit,
}

-- What SHA-256 answers: 32 bytes.
pub record IsDigest (bytes : List ℕ) : Type 0 where
  pub size : length bytes ≡ 32
  pub octets : All (λ b. b < 256) bytes

-- The digits of the bytes, in lower case and without separators.
abbrev pub digits : List ℕ → Text
digits [] = []
digits (b ∷ bs) = lower (hex_digit (b / 16)) ∷ lower (hex_digit (b % 16)) ∷ digits bs

normalise-append :
    (s t : Text)
    → normalise_fingerprint (s ++ t) ≡ normalise_fingerprint s ++ normalise_fingerprint t
unfolding normalise_fingerprint
normalise-append [] t = refl
normalise-append (c ∷ s) t = ground (arith, normalise-append s t)

lower-digit : (d : ℕ) → d < 16 → (is_ascii_hexdigit (hex_digit d) ≡ true)
unfolding is_ascii_hexdigit hex_digit
lower-digit d h = ground arith

normalise-byte : (b : ℕ) → b < 256 → normalise_fingerprint (hex_fixed 2 b) ≡ digits (b ∷ [])
unfolding normalise_fingerprint hex_fixed
normalise-byte b h = ground (arith, lower-digit (b / 16 % 16), lower-digit (b % 16))

normalise-colon : (t : Text) → normalise_fingerprint (b':' ∷ t) ≡ normalise_fingerprint t
unfolding normalise_fingerprint
normalise-colon t = refl

normalise-nothing : normalise_fingerprint [] ≡ []
unfolding normalise_fingerprint
normalise-nothing = refl

normalise-join :
    (bs : List ℕ)
    → All (λ b. b < 256) bs
    → normalise_fingerprint (join_colon (map (hex_fixed 2) bs)) ≡ digits bs
unfolding join_colon
normalise-join [] h = normalise-nothing
normalise-join (b ∷ []) h = normalise-byte b h.0
normalise-join (b ∷ c ∷ bs) h =
    normalise-append (hex_fixed 2 b) (b':' ∷ join_colon (map (hex_fixed 2) (c ∷ bs)))
    ∙ rw (normalise-byte b h.0, normalise-colon, normalise-join (c ∷ bs) h.1) refl

digits-length : (bs : List ℕ) → length (digits bs) ≡ 2 * length bs
digits-length [] = refl
digits-length (b ∷ bs) = omega (arith, digits-length bs)

digit_injective : (a b : ℕ) → a < 16 → b < 16 → lower (hex_digit a) ≡ lower (hex_digit b) → a ≡ b
unfolding lower hex_digit
digit_injective a b ha hb e = ground arith

digits_injective :
    (xs bs : List ℕ)
    → All (λ b. b < 256) xs
    → All (λ b. b < 256) bs
    → digits xs ≡ digits bs
    → xs ≡ bs
digits_injective [] [] ha hb e = refl
digits_injective [] (b ∷ bs) ha hb e = absurd cc
digits_injective (a ∷ xs) [] ha hb e = absurd cc
digits_injective (a ∷ xs) (b ∷ bs) ha hb e = ground (
  arith,
  digit_injective (a / 16) (b / 16),
  digit_injective (a % 16) (b % 16),
  digits_injective xs bs,
)

client_config_pinned-ok :
    (advertised : Text) (bytes : List ℕ)
    → IsDigest bytes
    → normalise_fingerprint advertised ≡ digits bytes
    → client_config_pinned advertised ≡ ok (digits bytes)
unfolding client_config_pinned
client_config_pinned-ok advertised bytes h e = rw e (ground (arith, digits-length bytes, h.size))

pub verify-digits_iff :
    (sha256 : List ℕ → List ℕ) (bytes presented : List ℕ)
    → IsDigest bytes
    → IsDigest (sha256 presented)
    → (verify_server_cert sha256 (digits bytes) presented ≡ ok tt) ↔ (sha256 presented ≡ bytes)
unfolding verify_server_cert certificate_fingerprint
verify-digits_iff sha256 bytes presented hb hp = rw (normalise-join (sha256 presented) hp.octets) (
    ground (
      arith,
      text_eq_iff (digits (sha256 presented)) (digits bytes),
      digits_injective (sha256 presented) bytes hp.octets hb.octets,
    ))

pub advertised-pin :
    (sha256 : List ℕ → List ℕ) (real : List ℕ) (advertised : Text)
    → IsDigest (sha256 real)
    → normalise_fingerprint advertised ≡ normalise_fingerprint (certificate_fingerprint sha256 real)
    → client_config_pinned advertised ≡ ok (digits (sha256 real))
unfolding certificate_fingerprint
advertised-pin sha256 real advertised h spelled =
    client_config_pinned-ok advertised (sha256 real) h
      (spelled ∙ normalise-join (sha256 real) h.octets)

-- Let a receiver advertise the fingerprint of its certificate, in whatever case and with whatever
-- separators, and let SHA-256 answer 32 bytes. Then the client's configuration is made, and its
-- verifier accepts a certificate exactly when the certificate has the receiver's digest.
pub verify_server_cert-digest_iff :
    (sha256 : List ℕ → List ℕ) (real presented : List ℕ) (advertised : Text)
    → IsDigest (sha256 real)
    → IsDigest (sha256 presented)
    → normalise_fingerprint advertised ≡ normalise_fingerprint (certificate_fingerprint sha256 real)
    → (expected : Text) × (client_config_pinned advertised ≡ ok expected)
      × ((verify_server_cert sha256 expected presented ≡ ok tt) ↔ (sha256 presented ≡ sha256 real))
verify_server_cert-digest_iff sha256 real presented advertised hr hp spelled = (
  digits (sha256 real),
  advertised-pin sha256 real advertised hr spelled,
  verify-digits_iff sha256 (sha256 real) presented hr hp,
)
