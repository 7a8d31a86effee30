-- ===== src/Airplay/Tlv8/RoundTrip.antt =====
-- `decode` after `encode`: fragments of a long value are put together again.
use native.Mathlib.Decide.{ℕ_discrete}
use mathlib.Core.List.{append-nil, append_assoc}
use openplay.Airplay.Tlv8.Decode.{
  decode_from, decode_from_round, IsDefragmented, decode-IsDefragmented, decode-decode_from,
}
use openplay.Airplay.Tlv8.{
  Tlv8Item, chunks, merge, push_chunks, encode_onto, decode_loop, encode_item, encode, decode,
}
use openplay.Prelude.{
  All, List, [], ap, arith, drop, if◌then◌else◌, length, ok, refl, suc, sym, take, zero, ℕ, ◌%◌,
  ◌++◌, ◌+◌, ◌==◌, ◌∙◌, ◌∷◌, ◌≡◌, ◌≢◌, ◌≤◌, length-take, length-drop, take-append-drop,
  take-append_left, drop-append_left, length-append,
}

abbrev concat : List (List ℕ) → List ℕ
concat [] = []
concat (c ∷ cs) = c ++ concat cs

-- One chunk on the wire.
abbrev frame : ℕ → List ℕ → List ℕ
frame tag c = tag ∷ (length c % 256) ∷ c

abbrev frames : ℕ → List (List ℕ) → List ℕ
frames tag [] = []
frames tag (c ∷ cs) = frame tag c ++ frames tag cs

push_chunks-frames :
    (buf : List ℕ) (tag : ℕ) (cs : List (List ℕ)) → push_chunks buf tag cs ≡ buf ++ frames tag cs
unfolding push_chunks
push_chunks-frames buf tag [] = sym (append-nil buf)
push_chunks-frames buf tag (c ∷ cs) =
    push_chunks-frames (buf ++ frame tag c) tag cs ∙ append_assoc buf (frame tag c) (frames tag cs)

concat-chunks : (fuel : ℕ) (bs : List ℕ) → length bs ≤ fuel → concat (chunks fuel bs) ≡ bs
unfolding chunks
concat-chunks fuel [] h = refl
concat-chunks zero (b ∷ bs) h = absurd (omega arith)
concat-chunks (suc fuel) (b ∷ bs) h =
    ap (◌++◌ (take 255 (b ∷ bs)))
      (concat-chunks fuel (drop 255 (b ∷ bs)) (omega (arith, length-drop 255 (b ∷ bs))))
    ∙ take-append-drop 255 (b ∷ bs)

abbrev AreShort : List (List ℕ) → Type 0
AreShort = All (λ c. length c ≤ 255)

chunks-AreShort : (fuel : ℕ) (bs : List ℕ) → AreShort (chunks fuel bs)
unfolding chunks
chunks-AreShort fuel [] = tt
chunks-AreShort zero (b ∷ bs) = tt
chunks-AreShort (suc fuel) (b ∷ bs) =
    (omega (arith, length-take 255 (b ∷ bs)), chunks-AreShort fuel (drop 255 (b ∷ bs)))

merge-merge :
    (items : List Tlv8Item) (tag : ℕ) (v w : List ℕ)
    → merge (merge items tag v) tag w ≡ merge items tag (v ++ w)
unfolding merge
merge-merge [] tag v w = ground arith
merge-merge (i ∷ []) tag v w = ground (arith, append_assoc i.value v w)
merge-merge (i ∷ j ∷ []) tag v w = ground (arith, append_assoc j.value v w)
merge-merge (i ∷ j ∷ k ∷ []) tag v w = ap (◌∷◌ i) (merge-merge (j ∷ k ∷ []) tag v w)
merge-merge (i ∷ j ∷ k ∷ l ∷ is) tag v w = ap (◌∷◌ i) (merge-merge (j ∷ k ∷ l ∷ is) tag v w)

decode_from_frame :
    (items : List Tlv8Item) (pos tag : ℕ) (c rest : List ℕ)
    → length c ≤ 255
    → decode_from items pos (frame tag c ++ rest)
      ≡ decode_from (merge items tag c) (pos + 2 + length c) rest
decode_from_frame items pos tag c rest h =
    let e : length c % 256 ≡ length c = omega arith in
    rw (e, decode_from_round, take-append_left, drop-append_left)
      (ground (arith, length-append c rest))

decode_from-frames :
    (items : List Tlv8Item) (pos tag : ℕ) (c : List ℕ) (cs : List (List ℕ)) (rest : List ℕ)
    → AreShort (c ∷ cs)
    → (p : ℕ) × (decode_from items pos (frames tag (c ∷ cs) ++ rest)
        ≡ decode_from (merge items tag (concat (c ∷ cs))) p rest)
decode_from-frames items pos tag c [] rest h =
    (pos + 2 + length c, rw (append-nil c) (decode_from_frame items pos tag c rest h.0))
decode_from-frames items pos tag c (d ∷ cs) rest h =
    let (p, e) = decode_from-frames (merge items tag c) (pos + 2 + length c) tag d cs rest h.1 in
    (
      p,
      rw (append_assoc (frame tag c) (frames tag (d ∷ cs)) rest) (
          decode_from_frame items pos tag c (frames tag (d ∷ cs) ++ rest) h.0
          ∙ e
          ∙ ap (λ m. decode_from m p rest) (merge-merge items tag c (concat (d ∷ cs)))),
    )

-- The bytes of one item.
abbrev item_bytes : ℕ → List ℕ → List ℕ
item_bytes tag [] = tag ∷ 0 ∷ []
item_bytes tag (b ∷ bs) = frames tag (chunks (length (b ∷ bs)) (b ∷ bs))

encode_item-item_bytes :
    (buf : List ℕ) (tag : ℕ) (value : List ℕ)
    → encode_item buf tag value ≡ buf ++ item_bytes tag value
unfolding encode_item
encode_item-item_bytes buf tag [] = refl
encode_item-item_bytes buf tag (b ∷ bs) = push_chunks-frames buf tag _

abbrev wire : List Tlv8Item → List ℕ
wire [] = []
wire (i ∷ is) = item_bytes i.tag i.value ++ wire is

encode_onto-wire :
    (buf : List ℕ) (items : List Tlv8Item) → encode_onto buf items ≡ buf ++ wire items
unfolding encode_onto
encode_onto-wire buf [] = sym (append-nil buf)
encode_onto-wire buf (i ∷ is) = rw encode_item-item_bytes (
    encode_onto-wire (buf ++ item_bytes i.tag i.value) is
    ∙ append_assoc buf (item_bytes i.tag i.value) (wire is))

decode_from_item :
    (items : List Tlv8Item) (pos tag : ℕ) (value rest : List ℕ)
    → (p : ℕ) × (decode_from items pos (item_bytes tag value ++ rest)
        ≡ decode_from (merge items tag value) p rest)
unfolding chunks
decode_from_item items pos tag [] rest =
    (pos + 2 + 0, ground (arith, decode_from_round items pos tag 0 rest))
decode_from_item items pos tag (b ∷ bs) rest =
    let cs = chunks (length bs) (drop 255 (b ∷ bs)) in
    let whole = concat-chunks (suc (length bs)) (b ∷ bs) (omega arith) in
    let short = chunks-AreShort (suc (length bs)) (b ∷ bs) in
    let (p, e) = decode_from-frames items pos tag (take 255 (b ∷ bs)) cs rest short in
    (p, e ∙ ap (λ v. decode_from (merge items tag v) p rest) whole)

-- All items merged into those before them, from the left.
abbrev merge_all : List Tlv8Item → List Tlv8Item → List Tlv8Item
merge_all items [] = items
merge_all items (i ∷ is) = merge_all (merge items i.tag i.value) is

decode_from-wire :
    (items : List Tlv8Item) (pos : ℕ) (more : List Tlv8Item)
    → decode_from items pos (wire more) ≡ ok (merge_all items more)
decode_from-wire items pos [] = unfold decode_from decode_loop in refl
decode_from-wire items pos (i ∷ is) =
    let (p, e) = decode_from_item items pos i.tag i.value (wire is) in
    e ∙ decode_from-wire (merge items i.tag i.value) p is

-- Neighbours with one tag joined into one item, with the values in order.
abbrev absorb : Tlv8Item → List Tlv8Item → List Tlv8Item
absorb i [] = i ∷ []
absorb i (j ∷ js) =
    if i.tag == j.tag then record i { value = i.value ++ j.value } ∷ js else i ∷ j ∷ js

abbrev pub defragment : List Tlv8Item → List Tlv8Item
defragment [] = []
defragment (i ∷ is) = absorb i (defragment is)

merge-append :
    (items : List Tlv8Item) (x : Tlv8Item) (tag : ℕ) (value : List ℕ)
    → merge (items ++ x ∷ []) tag value ≡ items ++ merge (x ∷ []) tag value
unfolding merge
merge-append [] x tag value = refl
merge-append (i ∷ []) x tag value = refl
merge-append (i ∷ j ∷ is) x tag value = ap (◌∷◌ i) (merge-append (j ∷ is) x tag value)

absorb-absorb :
    (x y : Tlv8Item) (is : List Tlv8Item)
    → x.tag ≡ y.tag
    → absorb (record x { value = x.value ++ y.value }) is ≡ absorb x (absorb y is)
absorb-absorb x y [] e = ground arith
absorb-absorb x y (j ∷ is) e = ground (arith, append_assoc x.value y.value j.value)

absorb_ne :
    (x y : Tlv8Item) (is : List Tlv8Item) → x.tag ≢ y.tag → absorb x (absorb y is) ≡ x ∷ absorb y is
absorb_ne x y [] e = ground arith
absorb_ne x y (j ∷ is) e = ground arith

merge_one_same :
    (x y : Tlv8Item)
    → x.tag ≡ y.tag
    → merge (x ∷ []) y.tag y.value ≡ record x { value = x.value ++ y.value } ∷ []
unfolding merge
merge_one_same x y e = ground arith

merge_one_ne : (x y : Tlv8Item) → x.tag ≢ y.tag → merge (x ∷ []) y.tag y.value ≡ x ∷ y ∷ []
unfolding merge
merge_one_ne x y e = ground arith

merge_all-defragment :
    (items : List Tlv8Item) (x : Tlv8Item) (is : List Tlv8Item)
    → merge_all (items ++ x ∷ []) is ≡ items ++ defragment (x ∷ is)
merge_all-defragment items x [] = refl
merge_all-defragment items x (y ∷ is) = elim (ℕ_discrete x.tag y.tag) [
  | yes e ↦
      ap (λ m. merge_all m is)
        (merge-append items x y.tag y.value ∙ ap (◌++◌ items) (merge_one_same x y e))
      ∙ merge_all-defragment items (record x { value = x.value ++ y.value }) is
      ∙ ap (◌++◌ items) (absorb-absorb x y (defragment is) e)
  | no e ↦
      ap (λ m. merge_all m is)
        (merge-append items x y.tag y.value
          ∙ ap (◌++◌ items) (merge_one_ne x y e)
          ∙ sym (append_assoc items (x ∷ []) (y ∷ [])))
      ∙ merge_all-defragment (items ++ x ∷ []) y is
      ∙ append_assoc items (x ∷ []) (defragment (y ∷ is))
      ∙ ap (◌++◌ items) (sym (absorb_ne x y (defragment is) e))
]

merge_all_from_nil : (items : List Tlv8Item) → merge_all [] items ≡ defragment items
unfolding merge
merge_all_from_nil [] = refl
merge_all_from_nil (i ∷ is) = merge_all-defragment [] i is

-- Decoding what `encode` wrote gives back every item, with the items of neighbours that share a
-- tag joined into one; a value of more than 255 bytes, which is sent in pieces, comes back whole.
pub decode-encode : (items : List Tlv8Item) → decode (encode items) ≡ ok (defragment items)
unfolding encode
decode-encode items =
    decode-decode_from (encode_onto [] items)
    ∙ ap (decode_from [] 0) (encode_onto-wire [] items)
    ∙ decode_from-wire [] 0 items
    ∙ ap ok (merge_all_from_nil items)

defragment-IsDefragmented :
    (items : List Tlv8Item) → IsDefragmented items → defragment items ≡ items
defragment-IsDefragmented [] h = refl
defragment-IsDefragmented (i ∷ []) h = refl
defragment-IsDefragmented (i ∷ j ∷ is) h =
    ap (absorb i) (defragment-IsDefragmented (j ∷ is) h.1) ∙ ground arith

-- What `decode` accepted can be encoded and decoded again without a change.
pub decode-encode-decode :
    (bytes : List ℕ) (items : List Tlv8Item)
    → decode bytes ≡ ok items
    → decode (encode items) ≡ ok items
decode-encode-decode bytes items h =
    decode-encode items ∙ ap ok (defragment-IsDefragmented items (decode-IsDefragmented bytes h))
