-- ===== src/Prelude/Search.antt =====
-- Where a sequence of bytes first occurs in a longer one.
use openplay.Prelude.{
  suc, none, some, inl, inr, true, refl, [], if◌then◌else◌, List, ℕ, Option, length, ◌≡◌, ◌∷◌, ◌≤◌,
  ◌+◌, ◌++◌, arith, Bool-cases, Option-cases,
}
use openplay.Prelude.Strings.{is_some, strip_prefix, starts_with, and_then}

abbrev pub crlf_crlf : List ℕ
crlf_crlf = 13 ∷ 10 ∷ 13 ∷ 10 ∷ []

-- The first window of the haystack that is the needle; the needle is not empty.
unfoldable pub find_subslice : List ℕ → List ℕ → Option ℕ
find_subslice [] needle = none
find_subslice (b ∷ bs) needle =
    let later = find_subslice bs needle in
    if starts_with needle (b ∷ bs) then some 0 else and_then later (λ n. some (suc n))

starts_with-append :
    (p t u : List ℕ) → length p ≤ length t → starts_with p (t ++ u) ≡ starts_with p t
unfolding is_some strip_prefix
starts_with-append [] t u h = refl
starts_with-append (x ∷ p) [] u h = absurd (omega arith)
starts_with-append (x ∷ p) (y ∷ t) u h = ground (arith, starts_with-append p t u (omega arith))

starts_with-length : (p t : List ℕ) → starts_with p t ≡ true → length p ≤ length t
unfolding is_some strip_prefix
starts_with-length [] t h = omega arith
starts_with-length (x ∷ p) [] h = absurd (ground arith)
starts_with-length (x ∷ p) (y ∷ t) h = ground (arith, starts_with-length p t)

pub find_subslice-bound :
    (t needle : List ℕ) {n : ℕ} → find_subslice t needle ≡ some n → n + length needle ≤ length t
unfolding find_subslice
find_subslice-bound [] needle h = absurd (ground arith)
find_subslice-bound (b ∷ t) needle {n} h = elim (Option-cases (find_subslice t needle)) [
  | inl miss ↦ ground (arith, starts_with-length needle (b ∷ t))
  | inr (m, hit) ↦
      ground (arith, starts_with-length needle (b ∷ t), find_subslice-bound t needle hit)
]

pub find_subslice-append :
    (t u needle : List ℕ) {n : ℕ}
    → find_subslice t needle ≡ some n
    → find_subslice (t ++ u) needle ≡ some n
unfolding find_subslice
find_subslice-append [] u needle h = absurd (ground arith)
find_subslice-append (b ∷ t) u needle {n} h = elim (Bool-cases (starts_with needle (b ∷ t))) [
  | inl here ↦
      ground (arith, starts_with-append needle (b ∷ t) u (starts_with-length needle (b ∷ t) here))
  | inr later ↦ elim (Option-cases (find_subslice t needle)) [
    | inl miss ↦ absurd (ground arith)
    | inr (m, hit) ↦
        let bound = find_subslice-bound t needle hit in
        ground (
          arith,
          starts_with-append needle (b ∷ t) u (omega arith),
          find_subslice-append t u needle hit,
        )
  ]
]
