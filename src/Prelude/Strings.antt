-- ===== src/Prelude/Strings.antt =====
-- What the program uses of Rust's `str`: lines, pieces, trimming, numbers in and out of text.
use openplay.Prelude.{zero}
use openplay.Prelude.{
  Bool, List, Option, Text, ℕ, false, ◌∷◌, ◌%◌, if◌then◌else◌, some, [], none, ◌==◌, leb, ◌+◌, ◌&&◌,
  true, ltb, suc, ◌-◌, ◌||◌, ◌/◌, ◌*◌, ◌++◌, is_control,
}

-- `char::is_whitespace`: the Unicode property White_Space.
unfoldable pub is_whitespace : ℕ → Bool
is_whitespace c =
    (leb 9 c && leb c 13)
    || c == 0x20
    || c == 0x85
    || c == 0xa0
    || c == 0x1680
    || (leb 0x2000 c && leb c 0x200a)
    || c == 0x2028
    || c == 0x2029
    || c == 0x202f
    || c == 0x205f
    || c == 0x3000

unfoldable pub trim_start : Text → Text
trim_start [] = []
trim_start (c ∷ t) = let rest = trim_start t in if is_whitespace c then rest else c ∷ t

unfoldable pub trim_end : Text → Text
trim_end [] = []
trim_end (c ∷ t) = elim (trim_end t) [
  | [] ↦ if is_whitespace c then [] else c ∷ []
  | d ∷ ds ↦ c ∷ d ∷ ds
]

unfoldable pub trim : Text → Text
unfolding trim_start trim_end
trim t = trim_end (trim_start t)

-- `filter(|c| !c.is_control())`.
unfoldable pub without_controls : Text → Text
without_controls [] = []
without_controls (c ∷ t) = let rest = without_controls t in if is_control c then rest else c ∷ rest

unfoldable pub push_front : ℕ → List Text → List Text
push_front c [] = (c ∷ []) ∷ []
push_front c (p ∷ ps) = (c ∷ p) ∷ ps

-- `str::split` on the characters that a test picks: always one piece at least.
unfoldable pub split_by : (ℕ → Bool) → Text → List Text
unfolding push_front
split_by sep [] = [] ∷ []
split_by sep (c ∷ t) = let rest = split_by sep t in if sep c then [] ∷ rest else push_front c rest

abbrev pub split : ℕ → Text → List Text
split sep t = split_by (λ c. c == sep) t

unfoldable pub drop_empty : List Text → List Text
drop_empty [] = []
drop_empty ([] ∷ ps) = drop_empty ps
drop_empty ((c ∷ p) ∷ ps) = (c ∷ p) ∷ drop_empty ps

abbrev pub split_whitespace : Text → List Text
split_whitespace t = drop_empty (split_by is_whitespace t)

unfoldable pub strip_cr : Text → Text
strip_cr [] = []
strip_cr (c ∷ []) = if c == 13 then [] else c ∷ []
strip_cr (c ∷ d ∷ t) = c ∷ strip_cr (d ∷ t)

-- A line that ends in "\n" loses a "\r" before it; what follows the last "\n" is a line only if
-- it is not empty, and keeps its "\r".
unfoldable pub close_lines : List Text → List Text
unfolding strip_cr
close_lines [] = []
close_lines ([] ∷ []) = []
close_lines ((c ∷ p) ∷ []) = (c ∷ p) ∷ []
close_lines (p ∷ q ∷ ps) = strip_cr p ∷ close_lines (q ∷ ps)

abbrev pub lines : Text → List Text
lines t = close_lines (split 10 t)

unfoldable pub strip_prefix : Text → Text → Option Text
strip_prefix [] t = some t
strip_prefix (p ∷ ps) [] = none
strip_prefix (p ∷ ps) (c ∷ t) = let rest = strip_prefix ps t in if p == c then rest else none

unfoldable pub is_some {ℓ} : {A : Type ℓ} → Option A → Bool
is_some none = false
is_some (some a) = true

abbrev pub starts_with : Text → Text → Bool
starts_with prefix t = is_some (strip_prefix prefix t)

-- `to_lowercase` as far as it produces ASCII letters other than `i` and `k`: no character
-- outside ASCII lowers to one of those.
unfoldable pub lower : ℕ → ℕ
lower c = if leb 0x41 c && leb c 0x5a then c + 32 else c

unfoldable pub find {ℓ} : {A : Type ℓ} → (A → Bool) → List A → Option A
find p [] = none
find p (a ∷ rest) = let later = find p rest in if p a then some a else later

unfoldable pub nth {ℓ} : {A : Type ℓ} → ℕ → List A → Option A
nth n [] = none
nth zero (a ∷ rest) = some a
nth (suc n) (a ∷ rest) = nth n rest

abbrev pub or_else {ℓ} : {A : Type ℓ} → Option A → A → A
or_else none d = d
or_else (some a) d = a

-- `Option::and_then`.
abbrev pub and_then {ℓ κ} : {A : Type ℓ} {B : Type κ} → Option A → (A → Option B) → Option B
and_then none f = none
and_then (some a) f = f a

-- `char::to_digit`, for a radix of 10 or 16.
unfoldable pub to_digit : ℕ → ℕ → Option ℕ
to_digit radix c =
    if leb 0x30 c && leb c 0x39
    then some (c - 0x30)
    else if ltb 10 radix && leb 0x41 c && leb c 0x46
    then some (c - 0x37)
    else if ltb 10 radix && leb 0x61 c && leb c 0x66
    then some (c - 0x57)
    else none

-- The digit loop of `from_str_radix`: a number above `limit` is an overflow.
unfoldable pub digits_value : (radix limit value : ℕ) → Text → Option ℕ
digits_value radix limit value [] = some value
digits_value radix limit value (c ∷ t) = elim (to_digit radix c) [
  | none ↦ none
  | some d ↦
      if ltb limit (value * radix + d) then none else digits_value radix limit (value * radix + d) t
]

-- `from_str_radix` of an unsigned type: one `+` may stand in front, and a digit must follow.
unfoldable pub from_str_radix : (radix limit : ℕ) → Text → Option ℕ
unfolding digits_value
from_str_radix radix limit [] = none
from_str_radix radix limit (c ∷ t) =
    if c == 0x2b
    then elim t [ [] ↦ none | d ∷ ds ↦ digits_value radix limit 0 (d ∷ ds) ]
    else digits_value radix limit 0 (c ∷ t)

-- `str::parse` into an unsigned type.
abbrev pub parse_number : ℕ → Text → Option ℕ
parse_number limit t = from_str_radix 10 limit t

-- The digits of a number in front of a text; `n` itself is fuel enough.
unfoldable pub decimal_onto : (fuel n : ℕ) → Text → Text
decimal_onto zero n t = (n % 10 + 0x30) ∷ t
decimal_onto (suc fuel) n t =
    let more = decimal_onto fuel (n / 10) ((n % 10 + 0x30) ∷ t) in
    if ltb n 10 then (n % 10 + 0x30) ∷ t else more

-- `{}` of an unsigned number.
abbrev pub decimal : ℕ → Text
decimal n = decimal_onto n n []

unfoldable pub hex_digit : ℕ → ℕ
hex_digit d = if ltb d 10 then d + 0x30 else d + 0x37

-- `{:0wX}` of a number below `16 ^ w`.
unfoldable pub hex_fixed : (w n : ℕ) → Text
unfolding hex_digit
hex_fixed zero n = []
hex_fixed (suc w) n = hex_fixed w (n / 16) ++ (hex_digit (n % 16) ∷ [])
