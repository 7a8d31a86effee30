-- ===== src/Sender/Connect/Examples.antt =====
-- A receiver behind a bridge of the sender's own machine.
use openplay.Prelude.Strings.{hex_fixed, lower}
use openplay.Prelude.{
  ok, refl, [], if◌then◌else◌, ◌∷◌, ◌≡◌, Text, List, ◌==◌, ℕ, codes, ◌↔◌, replicate, arith, ◌%◌,
  text_eq,
}
use openplay.Sender.Connect.{Dialled, presents, timed_out, OpenPlayTarget, open_target}
use openplay.Sender.Connect.Reaches.{Reaches, open_target-Reaches_iff}
use openplay.Crypto.{certificate_fingerprint}
use openplay.Crypto.Pinning.{IsDigest}

abbrev toy_sha256 : List ℕ → List ℕ
toy_sha256 [] = replicate 32 0
toy_sha256 (b ∷ bs) = (b % 256) ∷ replicate 31 171

toy-IsDigest : (der : List ℕ) → IsDigest (toy_sha256 der)
toy-IsDigest [] = record { size = refl; octets = omega arith }
toy-IsDigest (b ∷ bs) = record { size = refl; octets = omega arith }

-- The bridge answers with another certificate, the receiver with its own.
abbrev dial : Text → Dialled
dial [] = timed_out
dial (c ∷ t) = if c == b'1' then presents (8 ∷ []) (ok tt) else presents (7 ∷ []) (ok tt)

abbrev target : OpenPlayTarget
target = record {
  addrs = [] ∷ codes "1:7290" ∷ codes "2:7290" ∷ [];
  fingerprint = certificate_fingerprint toy_sha256 (7 ∷ []);
  display_name = codes "den";
}

open_target-second : open_target toy_sha256 dial target ≡ ok (codes "2:7290")
unfolding open_target certificate_fingerprint openplay.Crypto.verify_server_cert
    openplay.Crypto.client_config_pinned hex_fixed lower text_eq
open_target-second = refl

open_target-Reaches_iff_example :
    (open_target toy_sha256 dial target ≡ ok (codes "2:7290"))
    ↔ Reaches toy_sha256 (toy_sha256 (7 ∷ [])) dial target.addrs (codes "2:7290")
open_target-Reaches_iff_example =
    open_target-Reaches_iff toy_sha256 dial target (7 ∷ []) (codes "2:7290") toy-IsDigest refl
