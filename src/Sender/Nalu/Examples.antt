-- ===== src/Sender/Nalu/Examples.antt =====
-- A key frame with its parameter sets.
use openplay.Prelude.Strings.{strip_prefix, is_some, nth}
use openplay.Prelude.{none, some, true, false, refl, [], List, ◌≡◌, ◌∷◌, All, arith}
use openplay.Sender.Nalu.{find_nalu_starts, extract_sps_pps, start_code}
use openplay.Sender.Nalu.Units.{Nalu, annex_b, extract_sps_pps-annex_b, last_of, IsUnit, joined}

find_nalu_starts-two :
    find_nalu_starts
      (0 ∷ 0 ∷ 0 ∷ 1 ∷ 0x67 ∷ 0x42 ∷ 0 ∷ 0x1e ∷ 0 ∷ 0 ∷ 0 ∷ 1 ∷ 0x68 ∷ 0xce ∷ 0x38 ∷ 0x80 ∷ [])
    ≡ 0 ∷ 8 ∷ []
unfolding find_nalu_starts
find_nalu_starts-two = refl

abbrev key_frame : List Nalu
key_frame =
    record { four = true; unit = 0x67 ∷ 0x42 ∷ [] }
    ∷ record { four = false; unit = 0x68 ∷ 0xce ∷ [] }
    ∷ record { four = false; unit = 0x65 ∷ 0x88 ∷ [] }
    ∷ []

extract_sps_pps-key_frame :
    extract_sps_pps (annex_b key_frame)
    ≡ some (0 ∷ 0 ∷ 0 ∷ 1 ∷ 0x67 ∷ 0x42 ∷ 0 ∷ 0 ∷ 1 ∷ 0x68 ∷ 0xce ∷ [])
unfolding extract_sps_pps strip_prefix is_some nth
extract_sps_pps-key_frame = refl

key_frame-units : All (λ n. IsUnit n.unit) key_frame
unfolding IsUnit start_code
key_frame-units = omega arith

extract_sps_pps-annex_b_example :
    extract_sps_pps (annex_b key_frame)
    ≡ joined (last_of 7 key_frame none) (last_of 8 key_frame none)
extract_sps_pps-annex_b_example = extract_sps_pps-annex_b key_frame key_frame-units
