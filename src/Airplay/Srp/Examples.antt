-- ===== src/Airplay/Srp/Examples.antt =====
-- crates/openplay-airplay/src/srp.rs: an exchange over real number functions and a small digest.
use openplay.Prelude.{err}
use openplay.Prelude.{ok, [], ◌≡◌, ◌%◌, ◌∷◌, ◌∙◌, ap, ◌↔◌, ◌==◌, ◌≢◌}
use openplay.Airplay.Srp.{
  ClientSession, b_is_zero, u_is_zero, client_compute, shared_u, group_n, pad_to_n,
}
use openplay.Airplay.Srp.Server.{finish}
use openplay.Airplay.Srp.Agreement.{client_compute-finish, client_compute-err_iff}
use openplay.Airplay.Srp.Toy.{
  toy, toy-IsLawful, username, pin, salt, server, server_public, nonzero, read_back, big_b_counts,
  u_counts,
}

client_compute-finish_example :
    (c : ClientSession) × (client_compute toy username pin salt server_public 13 ≡ ok c)
    × (c.public_a ≡ pad_to_n toy (toy.modpow 5 13 group_n) group_n)
    × ((c.m1, c.expected_m2) ≡ finish toy server username c.public_a)
client_compute-finish_example =
    client_compute-finish toy toy-IsLawful username pin salt 13 29 server_public read_back
      (nonzero (toy.from_bytes_be server_public % group_n)
        (ap (λ b. b % group_n == 0) read_back ∙ big_b_counts))
      (nonzero (shared_u toy 13 (toy.from_bytes_be server_public))
        (ap (λ b. shared_u toy 13 b == 0) read_back ∙ u_counts))

-- A server that answers zero is refused.
client_compute-err_iff_sample :
    ((client_compute toy username pin salt (0 ∷ []) 13 ≡ err b_is_zero) ↔ (0 % group_n ≡ 0))
    × ((client_compute toy username pin salt (0 ∷ []) 13 ≡ err u_is_zero)
        ↔ ((0 % group_n ≢ 0) × (shared_u toy 13 0 ≡ 0)))
client_compute-err_iff_sample =
    client_compute-err_iff toy toy-IsLawful username pin salt (0 ∷ []) 13
