-- ===== src/Sender/Connect/Reaches.antt =====
-- The host that the sender connects to (crates/openplay-sender/src/casting.rs) is the first that
-- presents the advertised certificate.
use openplay.Prelude.{none}
use openplay.Prelude.{some, err, inl, inr, refl, []}
use openplay.Prelude.{
  ok, List, ℕ, ◌≡◌, Text, ◌↔◌, ◌∷◌, arith, Result, Option, ◌≢◌, ◌⊎◌, ap, subst, ◌∙◌, ◌++◌, codes,
  sym,
}
use openplay.Sender.Connect.{
  Dialled, bad_url, no_answer, presents, timed_out, attempt, verified, try_addresses, try_next,
  connect_to_receiver, open_target, OpenPlayTarget, with_pin,
}
use openplay.Crypto.{
  verify_server_cert, normalise_fingerprint, client_config_pinned, certificate_fingerprint,
}
use openplay.Crypto.Pinning.{IsDigest, advertised-pin, verify-digits_iff, digits}

try_next-ok :
    (r : Result (Unit {0}) Text) (addr : Text) (later : Option Text → Result Text Text) (a : Text)
    → try_next r addr later ≡ ok a
    → ((r ≡ ok tt) × (addr ≡ a))
      ⊎ ((e : Text) × (r ≡ err e) × (later (some (addr ++ codes ": " ++ e)) ≡ ok a))
unfolding try_next
try_next-ok (ok u) addr later a h = inl (refl, ground arith)
try_next-ok (err e) addr later a h = inr (e, refl, h)

refused : {r : Result (Unit {0}) Text} (x : Text) → r ≡ ok tt → r ≡ err x → ⊥
refused x h e = cc

try_next-err :
    (r : Result (Unit {0}) Text) (addr : Text) (later : Option Text → Result Text Text) (a : Text)
    → r ≢ ok tt
    → ((last : Option Text) → later last ≡ ok a)
    → try_next r addr later ≡ ok a
unfolding try_next
try_next-err (ok u) addr later a h k = absurd (h refl)
try_next-err (err e) addr later a h k = k _

module _ (sha256 : List ℕ → List ℕ) (digest : List ℕ) where
  -- The host presents a certificate with the digest, and its handshake goes through.
  abbrev pub IsHost : Dialled → Type 0
  IsHost (bad_url e) = ⊥
  IsHost (no_answer e) = ⊥
  IsHost (presents der rest) = (sha256 der ≡ digest) × (rest ≡ ok tt)
  IsHost timed_out = ⊥

  module _ (dial : Text → Dialled) where
    -- The address is the first of the list at which that host answers.
    pub data Reaches : List Text → Text → Type 0 where
      here : (addr : Text) (addrs : List Text) → IsHost (dial addr) → Reaches (addr ∷ addrs) addr
      there :
          (other : Text) (addrs : List Text) (addr : Text)
          → ¬ IsHost (dial other)
          → Reaches addrs addr
          → Reaches (other ∷ addrs) addr

    module _ (expected : Text)
        (pins : (der : List ℕ)
          → (verify_server_cert sha256 expected der ≡ ok tt) ↔ (sha256 der ≡ digest)) where
      attempt_iff : (d : Dialled) → (attempt sha256 expected d ≡ ok tt) ↔ IsHost d
      unfolding attempt verified
      attempt_iff (bad_url e) = ground arith
      attempt_iff (no_answer e) = ground arith
      attempt_iff (presents der rest) = ground (arith, pins der)
      attempt_iff timed_out = ground arith

      try_addresses-Reaches :
          (addrs : List Text) (last : Option Text) (a : Text)
          → try_addresses sha256 dial expected addrs last ≡ ok a
          → Reaches addrs a
      unfolding try_addresses
      try_addresses-Reaches [] last a h = absurd cc
      try_addresses-Reaches (addr ∷ addrs) last a h =
          elim (try_next-ok (attempt sha256 expected (dial addr)) addr
            (try_addresses sha256 dial expected addrs) a h) [
              | inl (e, same) ↦
                  subst (Reaches (addr ∷ addrs)) same
                    (here addr addrs ((attempt_iff (dial addr)).0 e))
              | inr (x, e, rest) ↦
                  there addr addrs a (λ host. refused x ((attempt_iff (dial addr)).1 host) e)
                    (try_addresses-Reaches addrs _ a rest)
            ]

      Reaches-try_addresses :
          (addrs : List Text) (a : Text)
          → Reaches addrs a
          → (last : Option Text) → try_addresses sha256 dial expected addrs last ≡ ok a
      unfolding try_addresses
      Reaches-try_addresses _ a (here addr addrs host) last =
          ap (λ r. try_next r addr (try_addresses sha256 dial expected addrs))
            ((attempt_iff (dial addr)).1 host)
      Reaches-try_addresses _ a (there other addrs addr other_host rest) last =
          try_next-err _ other (try_addresses sha256 dial expected addrs) addr
            (λ e. other_host ((attempt_iff (dial other)).0 e))
            (Reaches-try_addresses addrs addr rest)

connect_to_receiver-try :
    (sha256 : List ℕ → List ℕ) (dial : Text → Dialled) (expected : Text) (addrs : List Text)
    (a : Text)
    → (connect_to_receiver sha256 dial expected addrs ≡ ok a)
      ↔ (try_addresses sha256 dial expected addrs none ≡ ok a)
unfolding connect_to_receiver try_addresses
connect_to_receiver-try sha256 dial expected [] a = ground arith
connect_to_receiver-try sha256 dial expected (addr ∷ addrs) a = (λ h. h, λ h. h)

open_target-connect :
    (sha256 : List ℕ → List ℕ) (dial : Text → Dialled) (target : OpenPlayTarget) (expected : Text)
    → client_config_pinned target.fingerprint ≡ ok expected
    → open_target sha256 dial target ≡ connect_to_receiver sha256 dial expected target.addrs
unfolding open_target with_pin
open_target-connect sha256 dial target expected e = ap (λ r. with_pin sha256 dial r target.addrs) e

-- Let the target carry the fingerprint of a receiver's certificate, however it is spelled, and let
-- SHA-256 answer 32 bytes. Then the sender connects to an address exactly when it is the first of
-- the advertised ones whose host presents a certificate with the receiver's digest and completes
-- the handshake: no other host is ever connected to, and no dead or foreign address keeps it away.
pub open_target-Reaches_iff :
    (sha256 : List ℕ → List ℕ) (dial : Text → Dialled) (target : OpenPlayTarget) (real : List ℕ)
    (a : Text)
    → ((der : List ℕ) → IsDigest (sha256 der))
    → normalise_fingerprint target.fingerprint
      ≡ normalise_fingerprint (certificate_fingerprint sha256 real)
    → (open_target sha256 dial target ≡ ok a) ↔ Reaches sha256 (sha256 real) dial target.addrs a
open_target-Reaches_iff sha256 dial target real a digests spelled =
    let pin = advertised-pin sha256 real target.fingerprint (digests real) spelled in
    let pins =
      λ (der : List ℕ). verify-digits_iff sha256 (sha256 real) der (digests real) (digests der) in
    let tries = connect_to_receiver-try sha256 dial (digits (sha256 real)) target.addrs a in
    let opened = open_target-connect sha256 dial target (digits (sha256 real)) pin in
    (
      λ h.
          try_addresses-Reaches sha256 (sha256 real) dial (digits (sha256 real)) pins target.addrs
            none a (tries.0 (sym opened ∙ h)),
      λ r.
          opened
          ∙ tries.1 (
              Reaches-try_addresses sha256 (sha256 real) dial (digits (sha256 real)) pins
                target.addrs a r none),
    )
