-- ===== src/Crypto/Examples.antt =====
-- Fingerprints, with a stand-in for the digest.
use openplay.Prelude.Strings.{decimal_onto, hex_fixed}
use openplay.Prelude.{ok, err, refl, [], List, Text, codes, ℕ, ◌∷◌, replicate, arith, ◌≡◌, ◌%◌, ◌↔◌}
use openplay.Crypto.{
  certificate_fingerprint, normalise_fingerprint, verify_server_cert, client_config_pinned,
}
use openplay.Crypto.Pinning.{verify_server_cert-digest_iff, IsDigest}

abbrev toy_sha256 : List ℕ → List ℕ
toy_sha256 [] = replicate 32 0
toy_sha256 (b ∷ bs) = (b % 256) ∷ replicate 31 171

toy-IsDigest : (der : List ℕ) → IsDigest (toy_sha256 der)
toy-IsDigest [] = record { size = refl; octets = omega arith }
toy-IsDigest (b ∷ bs) = record { size = refl; octets = omega arith }

fingerprint-two : certificate_fingerprint (λ der. der) (171 ∷ 5 ∷ []) ≡ codes "AB:05"
unfolding certificate_fingerprint hex_fixed
fingerprint-two = refl

client_config_pinned-short :
    client_config_pinned (codes "not-a-fingerprint")
    ≡ err (codes "Expected a 64-hex-digit SHA-256 fingerprint, got 3 digits")
unfolding client_config_pinned normalise_fingerprint decimal_onto
client_config_pinned-short = refl

verify_server_cert-digest_iff_sample :
    (expected : Text) × (client_config_pinned (certificate_fingerprint toy_sha256 (7 ∷ []))
      ≡ ok expected)
    × ((verify_server_cert toy_sha256 expected (8 ∷ []) ≡ ok tt)
        ↔ (toy_sha256 (8 ∷ []) ≡ toy_sha256 (7 ∷ [])))
verify_server_cert-digest_iff_sample =
    verify_server_cert-digest_iff toy_sha256 (7 ∷ []) (8 ∷ [])
      (certificate_fingerprint toy_sha256 (7 ∷ [])) (toy-IsDigest (7 ∷ [])) (toy-IsDigest (8 ∷ []))
      refl
