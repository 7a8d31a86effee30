-- ===== src/Prelude/Endian.antt =====
-- Numbers as little-endian bytes.
-- `from_le_bytes` of an unsigned type.
use openplay.Prelude.{
  zero, suc, refl, [], List, ℕ, ◌++◌, ◌%◌, ◌∷◌, ◌<◌, length, ◌/◌, ◌+◌, ◌^◌, replicate, ◌≡◌, sym, ap,
  arith, ◌*◌, ◌∙◌,
}

unfoldable pub from_le_bytes : List ℕ → ℕ
from_le_bytes [] = 0
from_le_bytes (b ∷ bs) = b + 256 * from_le_bytes bs

pub from_le_bytes-zeros :
    (bytes : List ℕ) (n : ℕ) → from_le_bytes (bytes ++ replicate n 0) ≡ from_le_bytes bytes
unfolding from_le_bytes
from_le_bytes-zeros [] zero = refl
from_le_bytes-zeros [] (suc n) = omega (arith, from_le_bytes-zeros [] n)
from_le_bytes-zeros (b ∷ bytes) n = omega (arith, from_le_bytes-zeros bytes n)

-- `to_le_bytes` of an unsigned type of this many bytes.
unfoldable pub to_le_bytes : (width n : ℕ) → List ℕ
to_le_bytes zero n = []
to_le_bytes (suc width) n = n % 256 ∷ to_le_bytes width (n / 256)

pub length-to_le_bytes : (width n : ℕ) → length (to_le_bytes width n) ≡ width
unfolding to_le_bytes
length-to_le_bytes zero n = refl
length-to_le_bytes (suc width) n = ap suc (length-to_le_bytes width (n / 256))

pub from_le_bytes-to_le_bytes :
    (width n : ℕ) → n < 256 ^ width → from_le_bytes (to_le_bytes width n) ≡ n
unfolding from_le_bytes to_le_bytes
from_le_bytes-to_le_bytes zero n h = omega arith
from_le_bytes-to_le_bytes (suc width) n h =
    ap (λ m. n % 256 + 256 * m) (from_le_bytes-to_le_bytes width (n / 256) (omega arith))
    ∙ omega arith

-- Numbers that fit have the same bytes only when they are equal.
pub to_le_bytes-injective :
    (width m n : ℕ)
    → m < 256 ^ width
    → n < 256 ^ width
    → to_le_bytes width m ≡ to_le_bytes width n
    → m ≡ n
to_le_bytes-injective width m n hm hn e =
    sym (from_le_bytes-to_le_bytes width m hm)
    ∙ ap from_le_bytes e
    ∙ from_le_bytes-to_le_bytes width n hn

-- The same with the high byte first.
unfoldable pub to_be_onto : (width n : ℕ) → List ℕ → List ℕ
to_be_onto zero n bytes = bytes
to_be_onto (suc width) n bytes = to_be_onto width (n / 256) (n % 256 ∷ bytes)

abbrev pub to_be_bytes : (width n : ℕ) → List ℕ
to_be_bytes width n = to_be_onto width n []

unfoldable pub from_be_onto : (value : ℕ) → List ℕ → ℕ
from_be_onto value [] = value
from_be_onto value (b ∷ bytes) = from_be_onto (value * 256 + b) bytes

abbrev pub from_be_bytes : List ℕ → ℕ
from_be_bytes bytes = from_be_onto 0 bytes

from_be_onto-to_be_onto :
    (width n : ℕ) (bytes : List ℕ)
    → n < 256 ^ width
    → from_be_onto 0 (to_be_onto width n bytes) ≡ from_be_onto n bytes
unfolding from_be_onto to_be_onto
from_be_onto-to_be_onto zero n bytes h = ap (λ v. from_be_onto v bytes) (omega arith)
from_be_onto-to_be_onto (suc width) n bytes h =
    from_be_onto-to_be_onto width (n / 256) (n % 256 ∷ bytes) (omega arith)
    ∙ ap (λ v. from_be_onto v bytes) (whole n)
  where
    whole : (n : ℕ) → n / 256 * 256 + n % 256 ≡ n
    whole n = omega arith

pub from_be_bytes-to_be_bytes :
    (width n : ℕ) → n < 256 ^ width → from_be_bytes (to_be_bytes width n) ≡ n
unfolding from_be_onto
from_be_bytes-to_be_bytes width n h = from_be_onto-to_be_onto width n [] h
