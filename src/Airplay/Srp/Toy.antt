-- ===== src/Airplay/Srp/Toy.antt =====
-- crates/openplay-airplay/src/srp.rs: sample data for runs: real number functions, a small digest and a
-- server.
use openplay.Prelude.Utf8.{as_bytes, encode_utf8}
use openplay.Prelude.{false}
use openplay.Prelude.{
  zero, suc, inl, inr, refl, [], if◌then◌else◌, ℕ, ◌≡◌, ◌^◌, Text, List, ◌%◌, ◌∷◌, ◌/◌, codes, ◌+◌,
  ◌*◌, ltb, arith, Bool-cases, ◌∙◌, ap, ◌==◌, ◌≢◌,
}
use openplay.Airplay.Srp.{
  Primitives, IsLawful, shared_u, group_n, scrambler, pad_to_n, private_x, multiplier,
}
use openplay.Airplay.Srp.Server.{RefServer, new}

abbrev pub read_be : ℕ → List ℕ → ℕ
read_be value [] = value
read_be value (b ∷ bs) = read_be (value * 256 + b) bs

unfoldable pub write_be : (fuel n : ℕ) → List ℕ → List ℕ
write_be zero n bytes = n ∷ bytes
write_be (suc fuel) n bytes =
    let more = write_be fuel (n / 256) (n % 256 ∷ bytes) in if ltb n 256 then n ∷ bytes else more

pub read-write : (fuel n : ℕ) (bytes : List ℕ) → read_be 0 (write_be fuel n bytes) ≡ read_be n bytes
unfolding write_be
read-write zero n bytes = ap (λ v. read_be v bytes) (omega arith)
read-write (suc fuel) n bytes = elim (Bool-cases (ltb n 256)) [
  | inl small ↦ rw small (ap (λ v. read_be v bytes) (omega arith))
  | inr large ↦
      rw large (read-write fuel (n / 256) (n % 256 ∷ bytes) ∙ ap (λ v. read_be v bytes) (whole n))
]
  where
    whole : (n : ℕ) → n / 256 * 256 + n % 256 ≡ n
    whole n = omega arith

abbrev pub toy : Primitives
toy = record {
  modpow = λ g e n. g ^ e % n;
  from_bytes_be = read_be 0;
  to_bytes_be = λ n. write_be n n [];
  sha512 = λ bytes. (read_be 0 bytes % 5 + 1) ∷ [];
}

pub toy-IsLawful : IsLawful toy
unfolding write_be
toy-IsLawful = record {
  modpow_lem = λ g e n h. refl;
  from-to = λ n. read-write n n [];
  from-zero = λ bytes. refl;
  to-zero = refl;
}

abbrev pub username : Text
username = codes "Pair-Setup"

abbrev pub pin : Text
pin = codes "3939"

abbrev pub salt : List ℕ
salt = 7 ∷ 9 ∷ []

abbrev pub server : RefServer
server = new toy username pin salt 29

abbrev pub server_public : List ℕ
server_public = toy.to_bytes_be server.big_b

pub nonzero : (n : ℕ) → (n == 0) ≡ false → n ≢ 0
nonzero n h = ground arith

pub read_back : toy.from_bytes_be server_public ≡ server.big_b
read_back = read-write server.big_b server.big_b []

pub big_b_counts : (server.big_b % group_n == 0) ≡ false
unfolding new private_x multiplier pad_to_n write_be as_bytes encode_utf8
big_b_counts = refl

pub u_counts : (shared_u toy 13 server.big_b == 0) ≡ false
unfolding new private_x multiplier pad_to_n write_be as_bytes encode_utf8 shared_u scrambler
u_counts = refl
