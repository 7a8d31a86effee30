-- ===== src/Sender/Nalu.antt =====
-- crates/openplay-sender/src/casting.rs: the NAL units of an H.264 byte stream, and the parameter sets
-- that are taken from it.
pub mod Units
mod Examples
use openplay.Prelude.Strings.{nth, starts_with}
use openplay.Prelude.{
  zero, suc, none, some, [], if◌then◌else◌, Option, ℕ, List, ◌==◌, ◌∷◌, ◌++◌, ◌+◌, ◌%◌, drop, ◌&&◌,
  ◌-◌, take,
}

-- The length of the start code at the head of the bytes, 0 if none stands there.
unfoldable pub start_code : List ℕ → ℕ
start_code (a ∷ b ∷ c ∷ d ∷ t) =
    if (a == 0) && (b == 0) then if c == 1 then 3 else if (c == 0) && (d == 1) then 4 else 0 else 0
start_code (a ∷ b ∷ c ∷ []) = if (a == 0) && (b == 0) && (c == 1) then 3 else 0
start_code (a ∷ b ∷ []) = 0
start_code (a ∷ []) = 0
start_code [] = 0

unfoldable pub push : (length position : ℕ) → List ℕ → List ℕ
push zero position rest = rest
push (suc length) position rest = position ∷ rest

-- The loop at `position`, where `skip` bytes of a start code are still to be passed over.
unfoldable pub scan : (position skip : ℕ) → List ℕ → List ℕ
unfolding start_code push
scan position skip [] = []
scan position (suc skip) (a ∷ t) = scan (position + 1) skip t
scan position zero (a ∷ t) =
    push (start_code (a ∷ t)) position (scan (position + 1) (start_code (a ∷ t) - 1) t)

unfoldable pub find_nalu_starts : List ℕ → List ℕ
unfolding scan
find_nalu_starts bytes = scan 0 0 bytes

-- The slices between the positions; the last one goes to the end.
unfoldable pub slices : List ℕ → (positions : List ℕ) → List (List ℕ)
slices bytes [] = []
slices bytes (start ∷ []) = drop start bytes ∷ []
slices bytes (start ∷ stop ∷ rest) =
    take (stop - start) (drop start bytes) ∷ slices bytes (stop ∷ rest)

-- `header_offset`, 0 where the loop goes on to the next unit.
unfoldable pub header_offset : List ℕ → ℕ
header_offset nalu =
    if starts_with (0 ∷ 0 ∷ 0 ∷ 1 ∷ []) nalu
    then 4
    else if starts_with (0 ∷ 0 ∷ 1 ∷ []) nalu
    then 3
    else 0

-- `nalu[header_offset] & 0x1F`, if there is such a byte behind a start code.
unfoldable pub kind_at : (offset : ℕ) → List ℕ → Option ℕ
kind_at zero nalu = none
kind_at (suc offset) nalu = elim (nth (suc offset) nalu) [
  | none ↦ none
  | some header ↦ some (header % 32)
]

unfoldable pub nalu_kind : List ℕ → Option ℕ
unfolding header_offset kind_at
nalu_kind nalu = kind_at (header_offset nalu) nalu

pub record ParameterSets : Type 0 where
  pub sps : Option (List ℕ)
  pub pps : Option (List ℕ)

unfoldable pub note_kind : Option ℕ → List ℕ → ParameterSets → ParameterSets
note_kind none nalu found = found
note_kind (some kind) nalu found =
    if kind == 7
    then record found { sps = some nalu }
    else if kind == 8
    then record found { pps = some nalu }
    else found

unfoldable pub note_all : List (List ℕ) → ParameterSets → ParameterSets
unfolding note_kind nalu_kind
note_all [] found = found
note_all (nalu ∷ rest) found = note_all rest (note_kind (nalu_kind nalu) nalu found)

unfoldable pub codec_data : ParameterSets → Option (List ℕ)
codec_data found = elim found.sps [
  | none ↦ none
  | some s ↦ elim found.pps [ none ↦ some s | some p ↦ some (s ++ p) ]
]

unfoldable pub extract_sps_pps : List ℕ → Option (List ℕ)
unfolding find_nalu_starts slices note_all codec_data
extract_sps_pps bytes =
    codec_data
      (note_all (slices bytes (find_nalu_starts bytes)) (record { sps = none; pps = none }))
