-- ===== src/Miracast/WfdParams/Resolution.antt =====
-- The mode that source and sink agree on.
use openplay.Prelude.{if◌then◌else◌}
use openplay.Prelude.Bits.{bit, bit_and-pow_iff, bit-bit_and, bit-le}
use Prim.Native.Nat.{bit_and}
use openplay.Miracast.WfdParams.{
  CeaResolutions, negotiate_resolution, supports, best_mode, Mode, res_1920x1080_p60,
  WfdVideoFormats, res_1920x1080_p30, res_1280x720_p60, res_1280x720_p30, res_720x480_p60,
}
use openplay.Prelude.{refl, [], ℕ, List, ◌^◌, ◌≡◌, ◌&&◌, ◌∷◌, arith, ◌==◌, ==_iff}

-- `supports` with a mask of one bit reads that bit.
supports-bit : (k a : ℕ) → supports a (2 ^ k) ≡ (bit k a == 1)
unfolding supports
supports-bit k a =
    ground (arith, bit_and-pow_iff k a, ==_iff (bit_and a (2 ^ k)) 0, ==_iff (bit k a) 1)

supports-bit_and :
    (k a b : ℕ) → supports (bit_and a b) (2 ^ k) ≡ supports a (2 ^ k) && supports b (2 ^ k)
supports-bit_and k a b = ground (
  arith,
  supports-bit k a,
  supports-bit k b,
  supports-bit k (bit_and a b),
  bit-bit_and k a b,
  bit-le k a,
  bit-le k b,
)

-- The modes that the source offers, the best first, each with its bit.
abbrev pub ladder : List (Mode × ℕ)
ladder =
    ((1920, 1080, 60), res_1920x1080_p60)
    ∷ ((1920, 1080, 30), res_1920x1080_p30)
    ∷ ((1280, 720, 60), res_1280x720_p60)
    ∷ ((1280, 720, 30), res_1280x720_p30)
    ∷ ((720, 480, 60), res_720x480_p60)
    ∷ []

-- The first mode of a list that both sides support, and 1280x720 at 30 without one.
abbrev pub first_shared : CeaResolutions → CeaResolutions → List (Mode × ℕ) → Mode
first_shared source sink [] = (1280, 720, 30)
first_shared source sink ((mode, mask) ∷ modes) =
    if supports source mask && supports sink mask then mode else first_shared source sink modes

-- The negotiated mode is the best of the five modes that source and sink both support, and
-- 1280x720 at 30 frames if they share none of them.
pub negotiate_resolution-first_shared :
    (source sink : WfdVideoFormats)
    → negotiate_resolution source sink
      ≡ first_shared source.cea_resolutions sink.cea_resolutions ladder
unfolding negotiate_resolution best_mode
negotiate_resolution-first_shared source sink =
    let a = source.cea_resolutions in
    let b = sink.cea_resolutions in
    rw
      (
        supports-bit_and 8 a b,
        supports-bit_and 7 a b,
        supports-bit_and 6 a b,
        supports-bit_and 5 a b,
        supports-bit_and 1 a b,
      )
      refl
