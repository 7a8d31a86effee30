-- ===== src/Prelude/Decimal.antt =====
-- A number that is printed in decimal digits is read back.
use openplay.Prelude.{inl, inr}
use openplay.Prelude.{
  zero, suc, some, refl, [], ℕ, ◌≤◌, ◌<◌, Text, ◌≢◌, ◌≡◌, ◌+◌, ◌∷◌, ap, arith, ◌∙◌, ◌%◌, sym, ◌/◌,
  Bool-cases, ltb,
}
use openplay.Prelude.Strings.{
  decimal_onto, decimal, digits_value, from_str_radix, parse_number, to_digit,
}

to_digit-digit : (d : ℕ) → d < 10 → to_digit 10 (d + 0x30) ≡ some d
unfolding to_digit
to_digit-digit d h = ground arith

digits_value-decimal :
    (limit fuel n : ℕ) (t : Text)
    → n ≤ fuel
    → n ≤ limit
    → digits_value 10 limit 0 (decimal_onto fuel n t) ≡ digits_value 10 limit n t
unfolding decimal_onto digits_value
digits_value-decimal limit zero n t h k = ground (arith, to_digit-digit (n % 10))
digits_value-decimal limit (suc fuel) n t h k =
    ground (
      arith,
      to_digit-digit (n % 10),
      digits_value-decimal limit fuel (n / 10) ((n % 10 + 0x30) ∷ t),
    )

-- It begins with a digit.
decimal_onto-digit :
    (fuel n : ℕ) (t : Text) → (c : ℕ) × (r : Text) × (decimal_onto fuel n t ≡ c ∷ r) × (c ≢ 0x2b)
unfolding decimal_onto
decimal_onto-digit zero n t = (n % 10 + 0x30, t, refl, omega arith)
decimal_onto-digit (suc fuel) n t =
    let (c, r, q, unsigned) = decimal_onto-digit fuel (n / 10) ((n % 10 + 0x30) ∷ t) in
    elim (Bool-cases (ltb n 10)) [
      | inl e ↦ (n % 10 + 0x30, t, rw e refl, omega arith)
      | inr e ↦ (c, r, rw e q, unsigned)
    ]

from_str_radix-digit :
    (limit c : ℕ) (t : Text)
    → c ≢ 0x2b
    → from_str_radix 10 limit (c ∷ t) ≡ digits_value 10 limit 0 (c ∷ t)
unfolding from_str_radix
from_str_radix-digit limit c t h = ground arith

pub parse_number-decimal : (limit n : ℕ) → n ≤ limit → parse_number limit (decimal n) ≡ some n
unfolding digits_value
parse_number-decimal limit n h =
    let (c, r, e, unsigned) = decimal_onto-digit n n [] in
    ap (from_str_radix 10 limit) e
    ∙ from_str_radix-digit limit c r unsigned
    ∙ ap (digits_value 10 limit 0) (sym e)
    ∙ digits_value-decimal limit n n [] (omega arith) h
