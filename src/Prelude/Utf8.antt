-- ===== src/Prelude/Utf8.antt =====
-- `String::from_utf8_lossy`: each maximal part of a sequence that cannot go on becomes U+FFFD.
mod Examples
use openplay.Prelude.{
  zero, suc, none, some, refl, [], if◌then◌else◌, ◌∷◌, Option, ℕ, List, Text, ◌≡◌, leb, ◌*◌, ltb,
  ◌++◌, ◌&&◌, ◌+◌, ◌%◌, ◌-◌, ◌==◌, ◌/◌,
}

-- A character that has begun: how many bytes are missing after the next, the range of the next,
-- and the bits so far.
pub record Partial : Type 0 where
  pub missing : ℕ
  pub low : ℕ
  pub high : ℕ
  pub bits : ℕ

abbrev begin : (missing low high bits : ℕ) → Text × Option Partial
begin missing low high bits =
    ([], some (record { missing = missing; low = low; high = high; bits = bits }))

unfoldable pub lead_byte : ℕ → Text × Option Partial
lead_byte b =
    if ltb b 0x80
    then (b ∷ [], none)
    else if leb 0xc2 b && leb b 0xdf
    then begin 0 0x80 0xbf (b - 0xc0)
    else if b == 0xe0
    then begin 1 0xa0 0xbf 0
    else if b == 0xed
    then begin 1 0x80 0x9f 0xd
    else if leb 0xe1 b && leb b 0xef
    then begin 1 0x80 0xbf (b - 0xe0)
    else if b == 0xf0
    then begin 2 0x90 0xbf 0
    else if leb 0xf1 b && leb b 0xf3
    then begin 2 0x80 0xbf (b - 0xf0)
    else if b == 0xf4
    then begin 2 0x80 0x8f 4
    else (0xfffd ∷ [], none)

unfoldable pub continue_with : Partial → ℕ → Text × Option Partial
continue_with p b = elim p.missing [
  | zero ↦ ((p.bits * 64 + b % 64) ∷ [], none)
  | suc n ↦ begin n 0x80 0xbf (p.bits * 64 + b % 64)
]

unfoldable pub next_byte : Option Partial → ℕ → Text × Option Partial
unfolding lead_byte continue_with
next_byte none b = lead_byte b
next_byte (some p) b =
    if leb p.low b && leb b p.high
    then continue_with p b
    else let (out, q) = lead_byte b in (0xfffd ∷ out, q)

unfoldable pub lossy_from : Option Partial → List ℕ → Text
unfolding next_byte
lossy_from none [] = []
lossy_from (some p) [] = 0xfffd ∷ []
lossy_from q (b ∷ bs) = let (out, q') = next_byte q b in out ++ lossy_from q' bs

abbrev pub from_utf8_lossy : List ℕ → Text
from_utf8_lossy bytes = lossy_from none bytes

-- `str::as_bytes`: the bytes of a code point, then those of a text.
unfoldable pub encode_utf8 : ℕ → List ℕ
encode_utf8 c =
    if ltb c 0x80
    then c ∷ []
    else if ltb c 0x800
    then (0xc0 + c / 64) ∷ (0x80 + c % 64) ∷ []
    else if ltb c 0x10000
    then (0xe0 + c / 4096) ∷ (0x80 + c / 64 % 64) ∷ (0x80 + c % 64) ∷ []
    else (0xf0 + c / 262144) ∷ (0x80 + c / 4096 % 64) ∷ (0x80 + c / 64 % 64) ∷ (0x80 + c % 64) ∷ []

unfoldable pub as_bytes : Text → List ℕ
unfolding encode_utf8
as_bytes [] = []
as_bytes (c ∷ t) = encode_utf8 c ++ as_bytes t
