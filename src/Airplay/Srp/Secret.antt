-- ===== src/Airplay/Srp/Secret.antt =====
-- crates/openplay-airplay/src/srp.rs: the secret of both sides, as a power of the generator.
use openplay.Prelude.{
  zero, suc, inl, inr, true, false, refl, [], ◌≡◌, ℕ, ◌≢◌, Bool-cases, ◌^◌, text_eq_iff, List, ◌<◌,
  ◌∷◌, text_eq, ◌+◌, ◌*◌, replicate, leb, arith, ◌++◌, ◌%◌, length, sym, ◌-◌, subst, ◌∙◌, ap,
}
use native.Mathlib.Nat.{mod-lt}
use openplay.Prelude.Modulo.{pow-mod_in, mul-pow_in, pow_add, pow_mul, add-sub_mod}
use openplay.Airplay.Srp.{Primitives, IsLawful, pad_to_n, client_secret, is_zero_value}
use openplay.Airplay.Srp.Server.{server_secret}

exponents : (g a b u x : ℕ) → (g ^ b) ^ (a + u * x) ≡ (g ^ a * (g ^ x) ^ u) ^ b
exponents g a b u x =
    sym (pow_mul g b (a + u * x))
    ∙ ap (λ e. g ^ e) (reorder a b u x)
    ∙ pow_mul g (a + x * u) b
    ∙ ap (λ y. y ^ b) (pow_add g a (x * u) ∙ ap (λ y. g ^ a * y) (pow_mul g x u))
  where
    reorder : (a b u x : ℕ) → b * (a + u * x) ≡ (a + x * u) * b
    reorder a b u x = grind arith

module _ (p : Primitives) (lawful : IsLawful p) where
  open p use {modpow, from_bytes_be, to_bytes_be}

  from-padding :
      (k : ℕ) (bytes : List ℕ) → from_bytes_be (replicate k 0 ++ bytes) ≡ from_bytes_be bytes
  from-padding zero bytes = refl
  from-padding (suc k) bytes = lawful.from-zero (replicate k 0 ++ bytes) ∙ from-padding k bytes

  -- The number is read back from its padded bytes.
  pub from-pad_to_n : (value n : ℕ) → from_bytes_be (pad_to_n p value n) ≡ value
  unfolding pad_to_n
  from-pad_to_n value n =
      elim (Bool-cases (leb (length (to_bytes_be n)) (length (to_bytes_be value)))) [
        | inl long ↦ rw long (lawful.from-to value)
        | inr short ↦ rw short (
            from-padding (length (to_bytes_be n) - length (to_bytes_be value)) (to_bytes_be value)
            ∙ lawful.from-to value)
      ]

  -- A value other than zero is told from zero.
  pub is_zero_value-false : (value : ℕ) → value ≢ 0 → is_zero_value p value ≡ false
  unfolding is_zero_value
  is_zero_value-false value ne = elim (Bool-cases (text_eq (to_bytes_be value) (0 ∷ []))) [
    | inl same ↦ absurd (
        ne (
          sym (lawful.from-to value)
          ∙ ap from_bytes_be ((text_eq_iff (to_bytes_be value) (0 ∷ [])).0 same)
          ∙ ap from_bytes_be (sym lawful.to-zero)
          ∙ lawful.from-to 0))
    | inr other ↦ other
  ]

  pub is_zero_value-true : is_zero_value p 0 ≡ true
  unfolding is_zero_value
  is_zero_value-true = (text_eq_iff (to_bytes_be 0) (0 ∷ [])).1 lawful.to-zero

  client_secret-power :
      (n g a b u x k : ℕ)
      → 0 < n
      → client_secret p n g ((k * modpow g x n + modpow g b n) % n) a u x k
        ≡ (g ^ b) ^ (a + u * x) % n
  unfolding client_secret
  client_secret-power n g a b u x k pos =
      ap (λ base. modpow base (a + u * x) n)
        (add-sub_mod (k * modpow g x n) (modpow g b n) n pos small)
      ∙ lawful.modpow_lem (modpow g b n) (a + u * x) n pos
      ∙ ap (λ y. y ^ (a + u * x) % n) (lawful.modpow_lem g b n pos)
      ∙ pow-mod_in (a + u * x) (g ^ b) n
    where
      small : modpow g b n < n
      small = subst (λ y. y < n) (sym (lawful.modpow_lem g b n pos)) (mod-lt (g ^ b) pos)

  server_secret-power :
      (n g a b u x : ℕ)
      → 0 < n
      → server_secret p n (modpow g a n) (modpow g x n) u b ≡ (g ^ a * (g ^ x) ^ u) ^ b % n
  unfolding server_secret
  server_secret-power n g a b u x pos =
      lawful.modpow_lem ((modpow g a n * modpow (modpow g x n) u n) % n) b n pos
      ∙ pow-mod_in b (modpow g a n * modpow (modpow g x n) u n) n
      ∙ ap (λ w. (modpow g a n * w) ^ b % n) verifier
      ∙ mul-pow_in (modpow g a n) b ((g ^ x) ^ u) n
      ∙ ap (λ w. (w * (g ^ x) ^ u) ^ b % n) (lawful.modpow_lem g a n pos)
      ∙ ap (λ w. w ^ b % n) (swap (g ^ a % n) ((g ^ x) ^ u))
      ∙ mul-pow_in ((g ^ x) ^ u) b (g ^ a) n
      ∙ ap (λ w. w ^ b % n) (swap ((g ^ x) ^ u) (g ^ a))
    where
      swap : (y z : ℕ) → y * z ≡ z * y
      swap y z = grind arith

      verifier : modpow (modpow g x n) u n ≡ (g ^ x) ^ u % n
      verifier =
          lawful.modpow_lem (modpow g x n) u n pos
          ∙ ap (λ y. y ^ u % n) (lawful.modpow_lem g x n pos)
          ∙ pow-mod_in u (g ^ x) n

  -- Both sides raise the generator to one exponent, for a verifier of the same `x`.
  pub client_secret-server_secret :
      (n g a b u x k : ℕ)
      → 0 < n
      → client_secret p n g ((k * modpow g x n + modpow g b n) % n) a u x k
        ≡ server_secret p n (modpow g a n) (modpow g x n) u b
  client_secret-server_secret n g a b u x k pos =
      client_secret-power n g a b u x k pos
      ∙ ap (λ y. y % n) (exponents g a b u x)
      ∙ sym (server_secret-power n g a b u x pos)
