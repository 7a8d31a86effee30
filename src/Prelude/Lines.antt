-- ===== src/Prelude/Lines.antt =====
-- Texts without control characters, and the lines and words of texts that are put together.
use openplay.Prelude.{inl, inr}
use openplay.Prelude.{
  zero, suc, false, refl, [], is_control, Text, ℕ, ◌++◌, ◌≡◌, any, ◌∷◌, Bool, take, ◌==◌, ap, List,
  arith, Bool-cases, ◌∙◌, sym, ◌≢◌,
}
use openplay.Prelude.Strings.{
  without_controls, close_lines, split_by, strip_cr, push_front, split, lines, drop_empty,
  is_whitespace, split_whitespace,
}

pub any-append :
    (xs ys : Text)
    → any is_control xs ≡ false
    → any is_control ys ≡ false
    → any is_control (xs ++ ys) ≡ false
any-append [] ys hx hy = hy
any-append (x ∷ xs) ys hx hy = ground (arith, any-append xs ys)

pub any-take : (n : ℕ) (xs : Text) → any is_control xs ≡ false → any is_control (take n xs) ≡ false
any-take zero xs h = refl
any-take (suc n) [] h = refl
any-take (suc n) (x ∷ xs) h = ground (arith, any-take n xs)

pub any-without_controls : (t : Text) → any is_control (without_controls t) ≡ false
unfolding without_controls
any-without_controls [] = refl
any-without_controls (c ∷ t) = ground (arith, any-without_controls t)

is_control-crlf : (c : ℕ) → is_control c ≡ false → ((c == 10) ≡ false) × ((c == 13) ≡ false)
unfolding is_control
is_control-crlf c h = ground arith

split_by-line :
    (line rest : Text)
    → any is_control line ≡ false
    → split 10 (line ++ (13 ∷ 10 ∷ rest)) ≡ (line ++ (13 ∷ [])) ∷ split 10 rest
unfolding split_by push_front
split_by-line [] rest h = refl
split_by-line (c ∷ line) rest h = ground (arith, split_by-line line rest, is_control-crlf c)

strip_cr-line : (line : Text) → strip_cr (line ++ (13 ∷ [])) ≡ line
unfolding strip_cr
strip_cr-line [] = refl
strip_cr-line (c ∷ []) = refl
strip_cr-line (c ∷ d ∷ line) = ap (λ t. c ∷ t) (strip_cr-line (d ∷ line))

split_by-cons :
    (sep : ℕ → Bool) (t : Text) → (p : Text) × (ps : List Text) × (split_by sep t ≡ p ∷ ps)
unfolding split_by push_front
split_by-cons sep [] = ([], [], refl)
split_by-cons sep (c ∷ t) =
    let (p, ps, q) = split_by-cons sep t in
    elim (Bool-cases (sep c)) [
      | inl e ↦ ([], split_by sep t, rw e refl)
      | inr e ↦ (c ∷ p, ps, rw e (ap (push_front c) q))
    ]

-- A line without control characters that ends in CRLF stands first, whatever follows.
pub lines-crlf :
    (line rest : Text)
    → any is_control line ≡ false
    → lines (line ++ (13 ∷ 10 ∷ rest)) ≡ line ∷ lines rest
unfolding close_lines
lines-crlf line rest h =
    let (p, ps, q) = split_by-cons (λ c. c == 10) rest in
    ap close_lines (split_by-line line rest h)
    ∙ ap (λ r. close_lines ((line ++ (13 ∷ [])) ∷ r)) q
    ∙ ap (λ l. l ∷ close_lines (p ∷ ps)) (strip_cr-line line)
    ∙ ap (λ r. line ∷ close_lines r) (sym q)

split_by-word :
    (word rest : Text)
    → any is_whitespace word ≡ false
    → split_by is_whitespace (word ++ (0x20 ∷ rest)) ≡ word ∷ split_by is_whitespace rest
unfolding split_by push_front
split_by-word [] rest h = unfold is_whitespace in refl
split_by-word (c ∷ word) rest h = ground (arith, split_by-word word rest)

drop_empty-keeps : (t : Text) (ts : List Text) → t ≢ [] → drop_empty (t ∷ ts) ≡ t ∷ drop_empty ts
unfolding drop_empty
drop_empty-keeps [] ts nonempty = absurd (nonempty refl)
drop_empty-keeps (c ∷ t) ts nonempty = refl

-- A word in front of a space is the first of the words.
pub split_whitespace-word :
    (word rest : Text)
    → any is_whitespace word ≡ false
    → word ≢ []
    → split_whitespace (word ++ (0x20 ∷ rest)) ≡ word ∷ split_whitespace rest
split_whitespace-word word rest h nonempty =
    ap drop_empty (split_by-word word rest h)
    ∙ drop_empty-keeps word (split_by is_whitespace rest) nonempty

-- The empty line behind which a text ends.
pub lines-empty : lines (13 ∷ 10 ∷ []) ≡ [] ∷ []
unfolding close_lines split_by push_front strip_cr
lines-empty = refl

split_by-printable : (t : Text) → any is_control t ≡ false → split 10 t ≡ t ∷ []
unfolding split_by push_front
split_by-printable [] h = refl
split_by-printable (c ∷ t) h = ground (arith, split_by-printable t, is_control-crlf c)

-- A text without line breaks is one line.
pub lines-printable :
    (c : ℕ) (t : Text) → any is_control (c ∷ t) ≡ false → lines (c ∷ t) ≡ (c ∷ t) ∷ []
unfolding close_lines
lines-printable c t h = ap close_lines (split_by-printable (c ∷ t) h)

-- A word behind a space is the first word too.
pub split_whitespace-space : (t : Text) → split_whitespace (0x20 ∷ t) ≡ split_whitespace t
unfolding split_by drop_empty is_whitespace
split_whitespace-space t = refl
