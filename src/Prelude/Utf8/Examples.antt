-- ===== src/Prelude/Utf8/Examples.antt =====
-- Runs of the lossy reading of UTF-8.
use openplay.Prelude.{refl, [], ◌∷◌, ◌≡◌}
use openplay.Prelude.Utf8.{from_utf8_lossy, lossy_from, next_byte, lead_byte, continue_with}

-- "é", a lone continuation byte, an overlong form, a truncated "€", and "a".
test_lossy :
    from_utf8_lossy (0xc3 ∷ 0xa9 ∷ 0x80 ∷ 0xc0 ∷ 0xaf ∷ 0xe2 ∷ 0x82 ∷ 0x61 ∷ [])
    ≡ 0xe9 ∷ 0xfffd ∷ 0xfffd ∷ 0xfffd ∷ 0xfffd ∷ 0x61 ∷ []
unfolding lossy_from next_byte lead_byte continue_with
test_lossy = refl
