-- ===== src/Airplay/Pairing/Http/Body.antt =====
-- crates/openplay-airplay/src/hap_pairing.rs: the bytes of one read, and the loop that reads a body.
use openplay.Prelude.{inl, inr, false, refl}
use openplay.Prelude.{
  ok, [], ◌≤◌, ℕ, List, ◌++◌, All, take, length, ◌+◌, drop, ◌≡◌, ◌∷◌, arith, ltb, ◌∙◌, sym, ◌-◌,
  ◌==◌, ◌<◌, length-append, ap, Bool-cases, length-take, take-append-drop, length-drop,
}
use mathlib.Core.List.{append-nil, append_assoc}
use openplay.Airplay.Stream.{Arrival, ready, read_error, read_length}
use openplay.Airplay.Pairing.Http.{Received, read_body}

-- A read that finds a byte at least.
unfoldable pub IsReady : Arrival → Type 0
IsReady (ready n) = 1 ≤ n
IsReady read_error = ⊥

module _ {ℓ} {A : Type ℓ} where
  pub moved :
      (n : ℕ) (got incoming : List A)
      → (got ++ take n incoming) ++ drop n incoming ≡ got ++ incoming
  moved n got incoming =
      append_assoc got (take n incoming) (drop n incoming)
      ∙ ap (λ t. got ++ t) (take-append-drop n incoming)

  none_left : (xs : List A) → length xs ≡ 0 → xs ≡ []
  none_left [] h = refl
  none_left (x ∷ xs) h = absurd (omega arith)

module _ (count room : ℕ) (incoming : List ℕ) where
  pub read_length-le :
      (read_length count room incoming ≤ room) × (read_length count room incoming ≤ length incoming)
  unfolding read_length
  read_length-le = (omega arith, omega arith)

  pub read_length-positive :
      1 ≤ count → 1 ≤ room → 1 ≤ length incoming → 1 ≤ read_length count room incoming
  unfolding read_length
  read_length-positive hc hr hi = omega arith

pub nonzero : (n : ℕ) → 1 ≤ n → (n == 0) ≡ false
nonzero n h = ground arith

-- The length of what was got after a read, and of what still comes.
pub read-lengths :
    (n : ℕ) (got incoming : List ℕ)
    → n ≤ length incoming
    → (length (got ++ take n incoming) ≡ length got + n)
      × (length (drop n incoming) ≡ length incoming - n)
read-lengths n got incoming h = (
  omega (arith, length-append got (take n incoming), length-take n incoming),
  length-drop n incoming,
)

module _ (size body_start content_length : ℕ) (fits : body_start + content_length ≤ size) where
  complete :
      (got incoming : List ℕ) (rest : List Arrival)
      → length incoming ≡ 0
      → ◌≡◌ {A = Received}
          (incoming, rest, ok (take content_length (drop body_start got)))
          ([], rest, ok (take content_length (drop body_start (got ++ incoming))))
  complete got incoming rest h =
      λ i. (none_left incoming h i, rest, ok (take content_length (drop body_start (joined i))))
    where
      joined : got ≡ got ++ incoming
      joined = sym (append-nil got) ∙ ap (λ t. got ++ t) (sym (none_left incoming h))

  -- The inner loop ends with the body once as many bytes have come as were announced.
  pub read_body-whole :
      (got incoming : List ℕ) (arrivals : List Arrival)
      → All IsReady arrivals
      → length incoming ≤ length arrivals
      → body_start ≤ length got
      → length got + length incoming ≡ body_start + content_length
      → (rest : List Arrival) × (read_body size body_start content_length got incoming arrivals
          ≡ ([], rest, ok (take content_length (drop body_start (got ++ incoming)))))
  unfolding read_body IsReady
  read_body-whole got incoming [] h le begun total =
      let enough : ltb (length got - body_start) content_length ≡ false = ground arith in
      ([], rw enough (complete got incoming [] (omega arith)))
  read_body-whole got incoming (read_error ∷ arrivals) h le begun total = absurd h.0
  read_body-whole got incoming (ready count ∷ arrivals) h le begun total =
      elim (Bool-cases (ltb (length got - body_start) content_length)) [
        | inr enough ↦ (
          ready count ∷ arrivals,
          rw enough (complete got incoming (ready count ∷ arrivals) (ground arith)),
        )
        | inl wanting ↦
            let some_read = positive (ground arith) in
            let lens = read-lengths n got incoming bounds.1 in
            let (rest, e) =
              read_body-whole (got ++ take n incoming) (drop n incoming) arrivals h.1
                (omega (arith, lens.1)) (omega (arith, lens.0))
                (omega (arith, lens.0, lens.1, bounds.1)) in
            (
              rest,
              rw (wanting, nonzero n some_read)
                  (e
                    ∙ ap (λ t. ([], rest, ok (take content_length (drop body_start t))))
                        (moved n got incoming)),
            )
      ]
    where
      n : ℕ
      n = read_length count (size - length got) incoming

      bounds : (n ≤ size - length got) × (n ≤ length incoming)
      bounds = read_length-le count (size - length got) incoming

      positive : length got < body_start + content_length → 1 ≤ n
      positive short =
          read_length-positive count (size - length got) incoming h.0 (omega arith) (omega arith)
