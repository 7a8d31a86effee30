-- ===== src/Crypto.antt =====
-- crates/openplay-crypto: the fingerprint of a certificate (src/lib.rs) and the verifier that pins it
-- (src/tls.rs). SHA-256 is the argument `sha256`.
pub mod Pinning
mod Examples
use openplay.Prelude.{
  ok, err, [], if◌then◌else◌, List, Text, ℕ, ◌∷◌, Bool, Result, map, leb, text_eq, ◌++◌, length,
  ◌&&◌, ◌==◌, codes, ◌||◌,
}
use openplay.Prelude.Strings.{hex_fixed, lower, decimal}

-- `join(":")`.
unfoldable pub join_colon : List Text → Text
join_colon [] = []
join_colon (p ∷ []) = p
join_colon (p ∷ q ∷ ps) = p ++ (b':' ∷ join_colon (q ∷ ps))

-- `{b:02X}` of each byte of the digest.
unfoldable pub certificate_fingerprint : (sha256 : List ℕ → List ℕ) (der : List ℕ) → Text
unfolding join_colon
certificate_fingerprint sha256 der = join_colon (map (hex_fixed 2) (sha256 der))

unfoldable pub is_ascii_hexdigit : ℕ → Bool
is_ascii_hexdigit c =
    (leb 0x30 c && leb c 0x39) || (leb 0x41 c && leb c 0x46) || (leb 0x61 c && leb c 0x66)

unfoldable pub normalise_fingerprint : Text → Text
unfolding is_ascii_hexdigit lower
normalise_fingerprint [] = []
normalise_fingerprint (c ∷ t) =
    let rest = normalise_fingerprint t in if is_ascii_hexdigit c then lower c ∷ rest else rest

-- The error carries its message.
unfoldable pub verify_server_cert :
    (sha256 : List ℕ → List ℕ) (expected : Text) (end_entity : List ℕ) → Result (Unit {0}) Text
unfolding certificate_fingerprint normalise_fingerprint
verify_server_cert sha256 expected end_entity =
    let presented = normalise_fingerprint (certificate_fingerprint sha256 end_entity) in
    if text_eq presented expected
    then ok tt
    else err (
        codes "certificate fingerprint mismatch: receiver presented "
        ++ presented
        ++ codes ", mDNS advertised "
        ++ expected)

-- The expectation that the verifier of the client's configuration holds.
unfoldable pub client_config_pinned : (expected_fingerprint : Text) → Result Text Text
unfolding normalise_fingerprint
client_config_pinned expected_fingerprint =
    let normalised = normalise_fingerprint expected_fingerprint in
    if length normalised == 64
    then ok normalised
    else err (
        codes "Expected a 64-hex-digit SHA-256 fingerprint, got "
        ++ decimal (length normalised)
        ++ codes " digits")
