-- ===== src/Miracast/WfdParams/RoundTrip.antt =====
-- The text form of the video formats is read back.
use openplay.Miracast.WfdParams.{
  format_fields, parse, parse_hex, encode, parse_parts, WfdVideoFormats, fields,
}
use openplay.Prelude.{refl}
use openplay.Prelude.{inl, inr, []}
use openplay.Prelude.Strings.{
  digits_value, hex_digit, hex_fixed, to_digit, is_whitespace, split_by, from_str_radix, drop_empty,
  split_whitespace, push_front,
}
use openplay.Prelude.{
  zero, suc, some, false, ℕ, All, ◌<◌, Text, ◌^◌, arith, ◌≡◌, ◌++◌, ◌≤◌, ◌≢◌, ◌∷◌, ◌/◌, List,
  All-append, Option-cases, ◌-◌, ◌%◌, ◌*◌, ◌∙◌, ap, ◌+◌,
}

digits_value-append :
    (radix limit v : ℕ) (t u : Text) {w : ℕ}
    → digits_value radix limit v t ≡ some w
    → digits_value radix limit v (t ++ u) ≡ digits_value radix limit w u
unfolding digits_value
digits_value-append radix limit v [] u {w} h = ground arith
digits_value-append radix limit v (c ∷ t) u {w} h = elim (Option-cases (to_digit radix c)) [
  | inl bad ↦ ground arith
  | inr (d, good) ↦ ground (arith, digits_value-append radix limit (v * radix + d) t u {w = w})
]

to_digit-hex_digit : (d : ℕ) → d < 16 → to_digit 16 (hex_digit d) ≡ some d
unfolding to_digit hex_digit
to_digit-hex_digit d h = ground arith

digits_value-hex_fixed :
    (limit w n : ℕ) → n < 16 ^ w → n ≤ limit → digits_value 16 limit 0 (hex_fixed w n) ≡ some n
unfolding digits_value hex_fixed
digits_value-hex_fixed limit zero n h k = ground arith
digits_value-hex_fixed limit (suc w) n h k = ground (
  arith,
  digits_value-append 16 limit 0 (hex_fixed w (n / 16)) (hex_digit (n % 16) ∷ []) {w = n / 16},
  digits_value-hex_fixed limit w (n / 16),
  to_digit-hex_digit (n % 16),
)

-- Printable, not white space, not a sign: what `hex_fixed` writes.
abbrev IsHex : ℕ → Type 0
IsHex c = (is_whitespace c ≡ false) × (c ≢ 0x2b)

hex_digit-IsHex : (d : ℕ) → d < 16 → IsHex (hex_digit d)
unfolding hex_digit is_whitespace
hex_digit-IsHex d h = ground arith

hex_fixed-IsHex : (w n : ℕ) → All IsHex (hex_fixed w n)
unfolding hex_fixed
hex_fixed-IsHex zero n = tt
hex_fixed-IsHex (suc w) n =
    All-append IsHex (hex_fixed w (n / 16)) (hex_digit (n % 16) ∷ []) (hex_fixed-IsHex w (n / 16))
      (hex_digit-IsHex (n % 16) (omega arith), tt)

append_one-nonempty : (t : Text) (c : ℕ) → t ++ (c ∷ []) ≢ []
append_one-nonempty [] c h = ground arith
append_one-nonempty (d ∷ t) c h = ground arith

IsHex-nonempty : (w n : ℕ) → hex_fixed (suc w) n ≢ []
unfolding hex_fixed
IsHex-nonempty w n = append_one-nonempty (hex_fixed w (n / 16)) (hex_digit (n % 16))

from_str_radix_unsigned :
    (limit : ℕ) (t : Text)
    → t ≢ []
    → All IsHex t
    → from_str_radix 16 limit t ≡ digits_value 16 limit 0 t
unfolding from_str_radix
from_str_radix_unsigned limit [] ne h = absurd (ne refl)
from_str_radix_unsigned limit (c ∷ t) ne h = ground (arith, h.0)

parse_hex-hex_fixed : (w n : ℕ) → n < 16 ^ suc w → parse_hex (suc w) (hex_fixed (suc w) n) ≡ some n
parse_hex-hex_fixed w n h =
    from_str_radix_unsigned (16 ^ suc w - 1) (hex_fixed (suc w) n) (IsHex-nonempty w n)
      (hex_fixed-IsHex (suc w) n)
    ∙ digits_value-hex_fixed (16 ^ suc w - 1) (suc w) n h (omega arith)

split_by_piece :
    (t rest : Text)
    → All IsHex t
    → split_by is_whitespace (t ++ (0x20 ∷ rest)) ≡ t ∷ split_by is_whitespace rest
unfolding split_by push_front
split_by_piece [] rest h = unfold is_whitespace in refl
split_by_piece (c ∷ t) rest h = ground (arith, split_by_piece t rest h.1)

split_by_last : (t : Text) → All IsHex t → split_by is_whitespace t ≡ t ∷ []
unfolding split_by push_front
split_by_last [] h = refl
split_by_last (c ∷ t) h = ground (arith, split_by_last t h.1)

drop_empty_keeps : (t : Text) (ts : List Text) → t ≢ [] → drop_empty (t ∷ ts) ≡ t ∷ drop_empty ts
unfolding drop_empty
drop_empty_keeps [] ts ne = absurd (ne refl)
drop_empty_keeps (c ∷ t) ts ne = refl

-- The parts that `format_fields` puts between the spaces.
abbrev parts : List (ℕ × ℕ) → List Text
parts [] = []
parts ((w, n) ∷ fs) = hex_fixed (suc w) n ∷ parts fs

abbrev widen : List (ℕ × ℕ) → List (ℕ × ℕ)
widen [] = []
widen ((w, n) ∷ fs) = (suc w, n) ∷ widen fs

split_whitespace-format_fields :
    (fs : List (ℕ × ℕ)) → split_whitespace (format_fields (widen fs)) ≡ parts fs
unfolding format_fields
split_whitespace-format_fields [] = unfold split_by drop_empty in refl
split_whitespace-format_fields ((w, n) ∷ []) =
    ap drop_empty (split_by_last (hex_fixed (suc w) n) (hex_fixed-IsHex (suc w) n))
    ∙ (drop_empty_keeps (hex_fixed (suc w) n) [] (IsHex-nonempty w n) ∙ unfold drop_empty in refl)
split_whitespace-format_fields ((w, n) ∷ f ∷ fs) =
    ap drop_empty (
      split_by_piece (hex_fixed (suc w) n) (format_fields (widen (f ∷ fs)))
        (hex_fixed-IsHex (suc w) n))
    ∙ (drop_empty_keeps (hex_fixed (suc w) n) _ (IsHex-nonempty w n)
        ∙ ap (λ ts. hex_fixed (suc w) n ∷ ts) (split_whitespace-format_fields (f ∷ fs)))

-- `fields` with the widths less one.
abbrev narrow_fields : WfdVideoFormats → List (ℕ × ℕ)
narrow_fields f =
    (1, f.native)
    ∷ (1, f.preferred_display_mode)
    ∷ (1, f.profile)
    ∷ (1, f.level)
    ∷ (7, f.cea_resolutions)
    ∷ (7, f.vesa_resolutions)
    ∷ (7, f.hh_resolutions)
    ∷ (1, f.latency)
    ∷ (3, f.min_slice_size)
    ∷ (3, f.slice_enc_params)
    ∷ (1, f.frame_rate_ctrl)
    ∷ []

parse_parts-parts :
    (f : WfdVideoFormats)
    → All (λ x. x.1 < 16 ^ x.0) (fields f)
    → parse_parts (parts (narrow_fields f)) ≡ some f
unfolding parse_parts
parse_parts-parts f (h0, (h1, (h2, (h3, (h4, (h5, (h6, (h7, (h8, (h9, (h10, _))))))))))) =
    rw
      (
        parse_hex-hex_fixed 1 f.native h0,
        parse_hex-hex_fixed 1 f.preferred_display_mode h1,
        parse_hex-hex_fixed 1 f.profile h2,
        parse_hex-hex_fixed 1 f.level h3,
        parse_hex-hex_fixed 7 f.cea_resolutions h4,
        parse_hex-hex_fixed 7 f.vesa_resolutions h5,
        parse_hex-hex_fixed 7 f.hh_resolutions h6,
        parse_hex-hex_fixed 1 f.latency h7,
        parse_hex-hex_fixed 3 f.min_slice_size h8,
        parse_hex-hex_fixed 3 f.slice_enc_params h9,
        parse_hex-hex_fixed 1 f.frame_rate_ctrl h10,
      )
      refl

-- Video formats whose numbers fit their types are read back from their text as they were.
pub parse-encode :
    (f : WfdVideoFormats) → All (λ x. x.1 < 16 ^ x.0) (fields f) → parse (encode f) ≡ some f
unfolding parse encode
parse-encode f h =
    ap parse_parts (split_whitespace-format_fields (narrow_fields f)) ∙ parse_parts-parts f h
