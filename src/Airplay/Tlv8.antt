-- ===== src/Airplay/Tlv8.antt =====
-- crates/openplay-airplay/src/tlv8.rs: type-length-value items of HomeKit pairing. A byte is a
-- number; `to_map` is a `BTreeMap`, of which `map_get` is the reading.
pub mod Tags
pub mod Decode
pub mod RoundTrip
mod Examples
use openplay.Prelude.{
  All, Bool, List, Option, Result, Text, [], ap, arith, codes, drop, err, false, if◌then◌else◌, inl,
  inr, leb, length, ltb, none, not, ok, refl, some, suc, sym, take, true, zero, ℕ, ◌%◌, ◌&&◌, ◌*◌,
  ◌++◌, ◌+◌, ◌-◌, ◌/◌, ◌<◌, ◌==◌, ◌>>=◌, ◌>>◌, ◌^◌, ◌||◌, ◌↔◌, ◌∙◌, ◌∷◌, ◌≡◌, ◌≢◌, ◌≤◌, ◌⊎◌,
}

pub record Tlv8Item : Type 0 where
  pub tag : ℕ
  pub value : List ℕ

pub data DecodeError : Type 0 where
  truncated_header : (offset : ℕ) → DecodeError
  truncated_value : (offset expected available : ℕ) → DecodeError

-- `<[u8]>::chunks(255)` over the list, on fuel: each chunk takes a byte at least.
unfoldable pub chunks : ℕ → List ℕ → List (List ℕ)
chunks fuel [] = []
chunks zero (b ∷ bs) = []
chunks (suc fuel) (b ∷ bs) = take 255 (b ∷ bs) ∷ chunks fuel (drop 255 (b ∷ bs))

unfoldable pub push_chunks : List ℕ → ℕ → List (List ℕ) → List ℕ
push_chunks buf tag [] = buf
push_chunks buf tag (c ∷ cs) = push_chunks (buf ++ (tag ∷ (length c % 256) ∷ c)) tag cs

unfoldable pub encode_item : List ℕ → ℕ → List ℕ → List ℕ
unfolding push_chunks
encode_item buf tag [] = buf ++ (tag ∷ 0 ∷ [])
encode_item buf tag (b ∷ bs) = push_chunks buf tag (chunks (length (b ∷ bs)) (b ∷ bs))

unfoldable pub encode_onto : List ℕ → List Tlv8Item → List ℕ
encode_onto buf [] = buf
encode_onto buf (i ∷ is) = encode_onto (encode_item buf i.tag i.value) is

unfoldable pub encode : List Tlv8Item → List ℕ
encode items = encode_onto [] items

-- `items.last_mut()` with the same tag takes the value; otherwise a new item is pushed.
unfoldable pub merge : List Tlv8Item → ℕ → List ℕ → List Tlv8Item
merge [] tag value = record { tag = tag; value = value } ∷ []
merge (i ∷ []) tag value =
    if i.tag == tag
    then record i { value = i.value ++ value } ∷ []
    else i ∷ record { tag = tag; value = value } ∷ []
merge (i ∷ j ∷ is) tag value = i ∷ merge (j ∷ is) tag value

-- The `while` loop; the list is what `data[pos..]` holds. Each round takes two bytes at least.
unfoldable pub decode_loop : ℕ → List Tlv8Item → ℕ → List ℕ → Result (List Tlv8Item) DecodeError
decode_loop fuel items pos [] = ok items
decode_loop fuel items pos (t ∷ []) = err (truncated_header pos)
decode_loop zero items pos (t ∷ l ∷ rest) = err (truncated_header pos)
decode_loop (suc fuel) items pos (t ∷ l ∷ rest) =
    let more = decode_loop fuel (merge items t (take l rest)) (pos + 2 + l) (drop l rest) in
    if ltb (length rest) l then err (truncated_value (pos + 2) l (length rest)) else more

unfoldable pub decode : List ℕ → Result (List Tlv8Item) DecodeError
decode bytes = decode_loop (length bytes) [] 0 bytes

-- `iter().find(…)`.
unfoldable pub lookup : List Tlv8Item → ℕ → Option (List ℕ)
lookup [] tag = none
lookup (i ∷ is) tag = if i.tag == tag then some i.value else lookup is tag

-- What `to_map(items).get(tag)` reads: of items with one tag `collect` keeps the last.
unfoldable pub map_get : List Tlv8Item → ℕ → Option (List ℕ)
map_get [] tag = none
map_get (i ∷ is) tag = elim (map_get is tag) [
  | some v ↦ some v
  | none ↦ if i.tag == tag then some i.value else none
]

unfoldable pub item_u8 : ℕ → ℕ → Tlv8Item
item_u8 tag value = record { tag = tag; value = value ∷ [] }

unfoldable pub item : ℕ → List ℕ → Tlv8Item
item tag value = record { tag = tag; value = value }
