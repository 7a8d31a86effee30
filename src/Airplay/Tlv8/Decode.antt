-- ===== src/Airplay/Tlv8/Decode.antt =====
-- `decode` on any bytes: its fuel is enough, and its errors say where the input ends.
use openplay.Airplay.Tlv8.{
  DecodeError, Tlv8Item, decode, decode_loop, merge, truncated_header, truncated_value,
}
use openplay.Prelude.{
  List, Result, [], arith, drop, err, if◌then◌else◌, length, ltb, ok, refl, suc, take, zero, ℕ, ◌+◌,
  ◌<◌, ◌∷◌, ◌≡◌, ◌≢◌, ◌≤◌, subst, length-drop,
}

-- Any two amounts of fuel that cover the bytes left give the same result.
decode_loop_fuel :
    (f g : ℕ) (items : List Tlv8Item) (pos : ℕ) (bytes : List ℕ)
    → length bytes ≤ f
    → length bytes ≤ g
    → decode_loop f items pos bytes ≡ decode_loop g items pos bytes
unfolding decode_loop
decode_loop_fuel f g items pos [] h k = refl
decode_loop_fuel f g items pos (t ∷ []) h k = refl
decode_loop_fuel zero g items pos (t ∷ l ∷ rest) h k = absurd (omega arith)
decode_loop_fuel (suc f) zero items pos (t ∷ l ∷ rest) h k = absurd (omega arith)
decode_loop_fuel (suc f) (suc g) items pos (t ∷ l ∷ rest) h k = ground (
  arith,
  length-drop l rest,
  decode_loop_fuel f g (merge items t (take l rest)) (pos + 2 + l) (drop l rest),
)

-- The loop with the fuel that `decode` gives it.
unfoldable pub decode_from : List Tlv8Item → ℕ → List ℕ → Result (List Tlv8Item) DecodeError
decode_from items pos bytes = decode_loop (length bytes) items pos bytes

pub decode-decode_from : (bytes : List ℕ) → decode bytes ≡ decode_from [] 0 bytes
unfolding decode decode_from
decode-decode_from bytes = refl

-- One round of the loop, with no fuel in sight: `decode` does not run out of it.
pub decode_from_round :
    (items : List Tlv8Item) (pos t l : ℕ) (rest : List ℕ)
    → decode_from items pos (t ∷ l ∷ rest) ≡ (
        if ltb (length rest) l
        then err (truncated_value (pos + 2) l (length rest))
        else decode_from (merge items t (take l rest)) (pos + 2 + l) (drop l rest))
unfolding decode_from decode_loop
decode_from_round items pos t l rest = ground (
  arith,
  length-drop l rest,
  decode_loop_fuel (suc (length rest)) (length (drop l rest)) (merge items t (take l rest))
      (pos + 2 + l) (drop l rest),
)

-- The offset in an error, with what is left behind it, adds up to the length of the input, and
-- the value that is cut short is longer than what is left.
abbrev pub Locates : DecodeError → ℕ → Type 0
Locates (truncated_header offset) len = offset + 1 ≡ len
Locates (truncated_value offset expected available) len =
    (available < expected) × (offset + available ≡ len)

decode_loop-Locates :
    (f : ℕ) (items : List Tlv8Item) (pos : ℕ) (bytes : List ℕ) (n : ℕ) (e : DecodeError)
    → length bytes ≤ f
    → pos + length bytes ≡ n
    → decode_loop f items pos bytes ≡ err e
    → Locates e n
unfolding decode_loop
decode_loop-Locates f items pos [] n e h p k = cc
decode_loop-Locates f items pos (t ∷ []) n e h p k = ground arith
decode_loop-Locates zero items pos (t ∷ l ∷ rest) n e h p k = absurd (omega arith)
decode_loop-Locates (suc f) items pos (t ∷ l ∷ rest) n e h p k = ground (
  arith,
  length-drop l rest,
  decode_loop-Locates f (merge items t (take l rest)) (pos + 2 + l) (drop l rest) n e,
)

-- When `decode` fails, the error's offset is where the input was cut: a header is cut one byte
-- before the end, and a value is longer than the bytes from its offset to the end.
pub decode-Locates :
    (bytes : List ℕ) (e : DecodeError) → decode bytes ≡ err e → Locates e (length bytes)
unfolding decode
decode-Locates bytes e =
    decode_loop-Locates (length bytes) [] 0 bytes (length bytes) e (omega arith) (omega arith)

-- No two neighbours have the same tag.
abbrev pub IsDefragmented : List Tlv8Item → Type 0
IsDefragmented [] = Unit {0}
IsDefragmented (i ∷ []) = Unit {0}
IsDefragmented (i ∷ j ∷ is) = (i.tag ≢ j.tag) × IsDefragmented (j ∷ is)

merge-IsDefragmented :
    (items : List Tlv8Item) (tag : ℕ) (value : List ℕ)
    → IsDefragmented items
    → IsDefragmented (merge items tag value)
unfolding merge
merge-IsDefragmented [] tag value h = tt
merge-IsDefragmented (i ∷ []) tag value h = ground arith
merge-IsDefragmented (i ∷ j ∷ []) tag value h = ground arith
merge-IsDefragmented (i ∷ j ∷ k ∷ is) tag value h =
    (h.0, merge-IsDefragmented (j ∷ k ∷ is) tag value h.1)

decode_loop-IsDefragmented :
    (f : ℕ) (items : List Tlv8Item) (pos : ℕ) (bytes : List ℕ) {result : List Tlv8Item}
    → IsDefragmented items
    → decode_loop f items pos bytes ≡ ok result
    → IsDefragmented result
unfolding decode_loop
decode_loop-IsDefragmented f items pos [] h k = subst IsDefragmented (ground arith) h
decode_loop-IsDefragmented f items pos (t ∷ []) h k = cc
decode_loop-IsDefragmented zero items pos (t ∷ l ∷ rest) h k = cc
decode_loop-IsDefragmented (suc f) items pos (t ∷ l ∷ rest) h k =
    decode_loop-IsDefragmented f (merge items t (take l rest)) (pos + 2 + l) (drop l rest)
      (merge-IsDefragmented items t (take l rest) h) (ground arith)

-- In what `decode` returns no two neighbours have the same tag.
pub decode-IsDefragmented :
    (bytes : List ℕ) {items : List Tlv8Item} → decode bytes ≡ ok items → IsDefragmented items
unfolding decode
decode-IsDefragmented bytes = decode_loop-IsDefragmented (length bytes) [] 0 bytes tt
