-- ===== src/Sender/Nalu/Units.antt =====
-- A stream that is written from NAL units is taken apart into them
-- (crates/openplay-sender/src/casting.rs).
use openplay.Prelude.Strings.{strip_prefix, is_some, nth}
use openplay.Prelude.{none, some, if◌then◌else◌}
use mathlib.Core.List.{append_assoc, append-nil}
use openplay.Prelude.{refl}
use openplay.Prelude.{
  true, false, [], ℕ, Bool, List, ◌∷◌, ◌++◌, ◌≡◌, ◌≢◌, ◌+◌, length, ◌∙◌, ap, arith, ◌-◌, map, All,
  drop-append_left, length-append, take, sym, Option, ◌%◌, ◌==◌, drop, take-append_left,
}
use openplay.Sender.Nalu.{
  start_code, push, scan, find_nalu_starts, slices, extract_sps_pps, note_all, codec_data,
  ParameterSets, nalu_kind, note_kind,
}

-- The bytes of a unit: no start code within, and the last byte is not zero.
unfoldable pub IsUnit : List ℕ → Type 0
unfolding start_code
IsUnit [] = ⊥
IsUnit (a ∷ []) = a ≢ 0
IsUnit (a ∷ b ∷ t) = (start_code (a ∷ b ∷ t) ≡ 0) × IsUnit (b ∷ t)

-- A unit behind a start code of four bytes, or of three.
pub record Nalu : Type 0 where
  pub four : Bool
  pub unit : List ℕ

abbrev pub prefix : Bool → List ℕ
prefix true = 0 ∷ 0 ∷ 0 ∷ 1 ∷ []
prefix false = 0 ∷ 0 ∷ 1 ∷ []

abbrev pub piece : Nalu → List ℕ
piece n = prefix n.four ++ n.unit

abbrev pub annex_b : List Nalu → List ℕ
annex_b [] = []
annex_b (n ∷ ns) = piece n ++ annex_b ns

abbrev positions : ℕ → List Nalu → List ℕ
positions k [] = []
positions k (n ∷ ns) = k ∷ positions (k + length (piece n)) ns

start_code-append : (p rest : List ℕ) → IsUnit p → start_code (p ++ rest) ≡ 0
unfolding start_code IsUnit
start_code-append [] rest h = elim h [ ]
start_code-append (a ∷ []) [] h = refl
start_code-append (a ∷ []) (x ∷ []) h = refl
start_code-append (a ∷ []) (x ∷ y ∷ []) h = ground arith
start_code-append (a ∷ []) (x ∷ y ∷ z ∷ rest) h = ground arith
start_code-append (a ∷ b ∷ []) [] h = refl
start_code-append (a ∷ b ∷ []) (x ∷ []) h = ground arith
start_code-append (a ∷ b ∷ []) (x ∷ y ∷ rest) h = ground arith
start_code-append (a ∷ b ∷ c ∷ []) [] h = h.0
start_code-append (a ∷ b ∷ c ∷ []) (x ∷ rest) h = ground arith
start_code-append (a ∷ b ∷ c ∷ d ∷ t) rest h = h.0

scan_step :
    (a : ℕ) (t : List ℕ) (k : ℕ) → start_code (a ∷ t) ≡ 0 → scan k 0 (a ∷ t) ≡ scan (k + 1) 0 t
unfolding scan push
scan_step a t k e = ap (λ n. push n k (scan (k + 1) (n - 1) t)) e

scan-append :
    (p rest : List ℕ) (k : ℕ) → IsUnit p → scan k 0 (p ++ rest) ≡ scan (k + length p) 0 rest
unfolding IsUnit
scan-append [] rest k h = elim h [ ]
scan-append (a ∷ []) rest k h =
    scan_step a rest k (start_code-append (a ∷ []) rest h) ∙ ap (λ j. scan j 0 rest) (omega arith)
scan-append (a ∷ b ∷ t) rest k h =
    scan_step a (b ∷ t ++ rest) k (start_code-append (a ∷ b ∷ t) rest h)
    ∙ scan-append (b ∷ t) rest (k + 1) h.1
    ∙ ap (λ j. scan j 0 rest) (omega arith)

scan-prefix :
    (four : Bool) (rest : List ℕ) (k : ℕ)
    → scan k 0 (prefix four ++ rest) ≡ k ∷ scan (k + length (prefix four)) 0 rest
unfolding scan push start_code
scan-prefix true rest k = ap (λ j. k ∷ scan j 0 rest) (omega arith)
scan-prefix false [] k = refl
scan-prefix false (x ∷ rest) k = ap (λ j. k ∷ scan j 0 (x ∷ rest)) (omega arith)

scan-annex_b :
    (ns : List Nalu) (k : ℕ) → All (λ n. IsUnit n.unit) ns → scan k 0 (annex_b ns) ≡ positions k ns
unfolding scan
scan-annex_b [] k h = refl
scan-annex_b (n ∷ ns) k h =
    ap (scan k 0) (append_assoc (prefix n.four) n.unit (annex_b ns))
    ∙ scan-prefix n.four (n.unit ++ annex_b ns) k
    ∙ ap (λ t. k ∷ t)
        (scan-append n.unit (annex_b ns) (k + length (prefix n.four)) h.0
          ∙ ap (λ j. scan j 0 (annex_b ns)) (omega (arith, length-append (prefix n.four) n.unit))
          ∙ scan-annex_b ns (k + length (piece n)) h.1)

slice-between :
    (before unit rest : List ℕ)
    → take
        (length before + length unit - length before)
        (drop (length before) (before ++ (unit ++ rest)))
      ≡ unit
slice-between before unit rest =
    ap (take (length before + length unit - length before)) (drop-append_left before (unit ++ rest))
    ∙ ap (λ j. take j (unit ++ rest)) (omega arith)
    ∙ take-append_left unit rest

slices-annex_b :
    (ns : List Nalu) (before : List ℕ)
    → slices (before ++ annex_b ns) (positions (length before) ns) ≡ map piece ns
unfolding slices
slices-annex_b [] before = refl
slices-annex_b (n ∷ []) before =
    ap (λ t. t ∷ []) (drop-append_left before (piece n ++ []) ∙ append-nil (piece n))
slices-annex_b (n ∷ m ∷ ns) before =
    let tail =
      ap (λ bs. slices bs (positions (length before + length (piece n)) (m ∷ ns)))
        (sym (append_assoc before (piece n) (annex_b (m ∷ ns))))
      ∙ ap (λ j. slices (before ++ piece n ++ annex_b (m ∷ ns)) (positions j (m ∷ ns)))
          (sym (length-append before (piece n)))
      ∙ slices-annex_b (m ∷ ns) (before ++ piece n) in
    λ i. slice-between before (piece n) (annex_b (m ∷ ns)) i ∷ tail i

-- The type of a unit, the low five bits of its first byte.
abbrev pub kind_of : List ℕ → Option ℕ
kind_of [] = none
kind_of (header ∷ t) = some (header % 32)

abbrev pub is_kind : ℕ → Option ℕ → Bool
is_kind k none = false
is_kind k (some j) = j == k

-- The last piece whose unit has the type.
abbrev pub last_of : (kind : ℕ) → List Nalu → Option (List ℕ) → Option (List ℕ)
last_of kind [] found = found
last_of kind (n ∷ ns) found =
    last_of kind ns (if is_kind kind (kind_of n.unit) then some (piece n) else found)

nalu_kind-piece : (four : Bool) (unit : List ℕ) → nalu_kind (prefix four ++ unit) ≡ kind_of unit
unfolding nalu_kind strip_prefix is_some nth
nalu_kind-piece true [] = refl
nalu_kind-piece true (x ∷ t) = refl
nalu_kind-piece false [] = refl
nalu_kind-piece false (x ∷ t) = refl

note_kind_lem :
    (k : Option ℕ) (nalu : List ℕ) (found : ParameterSets)
    → note_kind k nalu found ≡ record {
      sps = if is_kind 7 k then some nalu else found.sps;
      pps = if is_kind 8 k then some nalu else found.pps;
    }
unfolding note_kind
note_kind_lem none nalu found = refl
note_kind_lem (some k) nalu found = ground arith

note_all-pieces :
    (ns : List Nalu) (found : ParameterSets)
    → note_all (map piece ns) found
      ≡ record { sps = last_of 7 ns found.sps; pps = last_of 8 ns found.pps }
unfolding note_all
note_all-pieces [] found = refl
note_all-pieces (n ∷ ns) found =
    ap (note_all (map piece ns)) (
      ap (λ k. note_kind k (piece n) found) (nalu_kind-piece n.four n.unit)
      ∙ note_kind_lem (kind_of n.unit) (piece n) found)
    ∙ note_all-pieces ns _

-- What a decoder is given: the sequence parameter set, then the picture parameter set.
abbrev pub joined : (sps pps : Option (List ℕ)) → Option (List ℕ)
joined none pps = none
joined (some s) none = some s
joined (some s) (some p) = some (s ++ p)

codec_data-joined :
    (sps pps : Option (List ℕ)) → codec_data (record { sps = sps; pps = pps }) ≡ joined sps pps
unfolding codec_data
codec_data-joined none pps = refl
codec_data-joined (some s) none = refl
codec_data-joined (some s) (some p) = refl

-- Of a stream that is written from units with start codes of three and of four bytes, no unit with
-- a start code within or with a zero at its end, the sequence parameter sets and the picture
-- parameter sets are found: the last of each, start code included, joined in this order; and nothing
-- is found if there is no sequence parameter set. Without a picture parameter set it is the sequence
-- parameter set alone.
pub extract_sps_pps-annex_b :
    (ns : List Nalu)
    → All (λ n. IsUnit n.unit) ns
    → extract_sps_pps (annex_b ns) ≡ joined (last_of 7 ns none) (last_of 8 ns none)
unfolding extract_sps_pps find_nalu_starts
extract_sps_pps-annex_b ns h =
    ap (λ ps. codec_data (note_all (slices (annex_b ns) ps) (record { sps = none; pps = none })))
      (scan-annex_b ns 0 h)
    ∙ ap (λ us. codec_data (note_all us (record { sps = none; pps = none }))) (slices-annex_b ns [])
    ∙ ap codec_data (note_all-pieces ns (record { sps = none; pps = none }))
    ∙ codec_data-joined (last_of 7 ns none) (last_of 8 ns none)
