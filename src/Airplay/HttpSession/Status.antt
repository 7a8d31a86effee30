-- ===== src/Airplay/HttpSession/Status.antt =====
-- The status of an answer (crates/openplay-airplay/src/http_session.rs), and what the session makes of
-- it (crates/openplay-airplay/src/session.rs).
use openplay.Prelude.{ok, err, true}
use openplay.Prelude.{if◌then◌else◌}
use openplay.Prelude.{suc, none}
use openplay.Prelude.Search.{find_subslice}
use openplay.Prelude.{
  some, false, refl, [], ℕ, Text, ◌<◌, ◌*◌, any, ◌≡◌, codes, ◌+◌, ◌∷◌, ◌++◌, ap, arith, ◌∙◌,
  is_control, ◌==◌, Option, leb, Bool, ◌&&◌, ltb,
}
use openplay.Airplay.HttpSession.{
  status_of, is_success, status_is_success, check_stream_answer, cut, behind, after_version,
  or_version, status_code, is_auth_status, wants_authentication, mirror, pair, give_up,
  after_stream, and_then,
}
use openplay.Prelude.Lines.{
  lines-crlf, split_whitespace-word, lines-printable, split_whitespace-space,
}
use openplay.Prelude.Strings.{
  lines, nth, or_else, split_whitespace, parse_number, digits_value, from_str_radix, to_digit,
  is_whitespace, strip_prefix, is_some,
}

-- A status line of three digits.
abbrev pub status_line : (a b c : ℕ) (reason : Text) → Text
status_line a b c reason =
    codes "HTTP/1.1 " ++ ((a + 0x30) ∷ (b + 0x30) ∷ (c + 0x30) ∷ 0x20 ∷ reason)

abbrev pub code_of : (a b c : ℕ) → ℕ
code_of a b c = 100 * a + 10 * b + c

digit : (d : ℕ) → d < 10 → to_digit 10 (d + 0x30) ≡ some d
unfolding to_digit
digit d h = ground arith

digit-printable : (d : ℕ) → d < 10 → is_control (d + 0x30) ≡ false
unfolding is_control
digit-printable d h = ground arith

cut-suc :
    (o : Option ℕ) (x : ℕ) (t : Text) → cut (and_then o (λ n. some (suc n))) (x ∷ t) ≡ x ∷ cut o t
unfolding cut
cut-suc none x t = refl
cut-suc (some m) x t = refl

-- A character that is no `H` stands before the next version.
cut-skip :
    (x : ℕ) (t : Text)
    → (0x48 == x) ≡ false
    → cut (find_subslice (x ∷ t) (codes "HTTP/1.1")) (x ∷ t)
      ≡ x ∷ cut (find_subslice t (codes "HTTP/1.1")) t
unfolding find_subslice strip_prefix is_some
cut-skip x t h = rw h (cut-suc (find_subslice t (codes "HTTP/1.1")) x t)

after_stream-if :
    (success wants : Bool) (msg : Text)
    → wants_authentication msg ≡ wants
    → after_stream (if success then ok tt else err msg)
      ≡ (if success then mirror else if wants then pair else give_up msg)
unfolding after_stream
after_stream-if true wants msg e = refl
after_stream-if false wants msg e = λ i. if e i then pair else give_up msg

digit-other : (d : ℕ) → d < 10 → (0x48 == d + 0x30) ≡ false
digit-other d h = ground arith

module _ (a b c : ℕ) (ha : a < 10) (hb : b < 10) (hc : c < 10) where
  parse-code : parse_number 65535 ((a + 0x30) ∷ (b + 0x30) ∷ (c + 0x30) ∷ []) ≡ some (code_of a b c)
  unfolding from_str_radix digits_value
  parse-code = ground (arith, digit a ha, digit b hb, digit c hc)

  code-word : any is_whitespace ((a + 0x30) ∷ (b + 0x30) ∷ (c + 0x30) ∷ []) ≡ false
  unfolding is_whitespace
  code-word = ground arith

  words-status_line :
      (reason : Text)
      → nth 1 (split_whitespace (status_line a b c reason))
        ≡ some ((a + 0x30) ∷ (b + 0x30) ∷ (c + 0x30) ∷ [])
  unfolding nth is_whitespace
  words-status_line reason =
      ap (nth 1) (split_whitespace-word (codes "HTTP/1.1") _ refl (λ e. cc))
      ∙ ap (nth 0) (
          split_whitespace-word ((a + 0x30) ∷ (b + 0x30) ∷ (c + 0x30) ∷ []) reason code-word
            (λ e. cc))

  status_line-printable :
      (reason : Text)
      → any is_control reason ≡ false
      → any is_control (status_line a b c reason) ≡ false
  unfolding is_control
  status_line-printable reason h = ground arith

  status_of-status_line :
      (reason more : Text)
      → any is_control reason ≡ false
      → status_of (status_line a b c reason ++ (13 ∷ 10 ∷ more)) ≡ some (code_of a b c)
  unfolding status_of nth
  status_of-status_line reason more h =
      ap
        (λ ls.
          and_then (and_then (nth 0 ls) (λ line. nth 1 (split_whitespace line)))
            (parse_number 65535))
        (lines-crlf (status_line a b c reason) more (status_line-printable reason h))
      ∙ ap (λ w. and_then w (parse_number 65535)) (words-status_line reason)
      ∙ parse-code

  abbrev digits : Text
  digits = (a + 0x30) ∷ (b + 0x30) ∷ (c + 0x30) ∷ []

  -- What stands behind the version of the message: the digits, and then some of the reason.
  cut-status :
      (reason : Text)
      → (tail : Text) × (after_version
            (codes "HTTP/1.1")
            (codes "POST /stream failed: " ++ status_line a b c reason)
          ≡ some (0x20 ∷ digits ++ (0x20 ∷ tail)))
  unfolding after_version behind find_subslice strip_prefix is_some
  cut-status reason = (
    cut (find_subslice reason (codes "HTTP/1.1")) reason,
    ap some (
        cut-skip 0x20 (digits ++ (0x20 ∷ reason)) refl
        ∙ ap (λ t. 0x20 ∷ t)
            (cut-skip (a + 0x30) ((b + 0x30) ∷ (c + 0x30) ∷ 0x20 ∷ reason) (digit-other a ha)
              ∙ ap (λ t. (a + 0x30) ∷ t)
                  (cut-skip (b + 0x30) ((c + 0x30) ∷ 0x20 ∷ reason) (digit-other b hb)
                    ∙ ap (λ t. (b + 0x30) ∷ t)
                        (cut-skip (c + 0x30) (0x20 ∷ reason) (digit-other c hc)
                          ∙ ap (λ t. (c + 0x30) ∷ t) (cut-skip 0x20 reason refl))))),
  )

  abbrev message : Text → Text
  message reason = codes "POST /stream failed: " ++ status_line a b c reason

  status_code-message :
      (reason : Text)
      → any is_control reason ≡ false
      → status_code (message reason) ≡ some (code_of a b c)
  unfolding status_code nth or_version is_control
  status_code-message reason h =
      let (tail, found) = cut-status reason in
      ap
        (λ ls. and_then (nth 0 ls) (λ line.
          and_then
            (or_version (after_version (codes "HTTP/1.1") line)
              (after_version (codes "HTTP/1.0") line))
            (λ rest. and_then (nth 0 (split_whitespace rest)) (parse_number 65535))))
        (lines-printable b'P' _ (status_line-printable reason h))
      ∙ ap
          (λ v.
            and_then (or_version v (after_version (codes "HTTP/1.0") (message reason)))
              (λ rest. and_then (nth 0 (split_whitespace rest)) (parse_number 65535)))
          found
      ∙ ap (λ ws. and_then (nth 0 ws) (parse_number 65535))
          (split_whitespace-space (digits ++ (0x20 ∷ tail))
            ∙ split_whitespace-word digits tail code-word (λ e. cc))
      ∙ parse-code

  -- The statuses of receivers that ask for pairing.
  abbrev pub asks_for_pairing : Bool
  asks_for_pairing = any (λ s. s == code_of a b c) (401 ∷ 403 ∷ 404 ∷ 470 ∷ 501 ∷ [])

  wants_authentication-message :
      (reason : Text)
      → any is_control reason ≡ false
      → wants_authentication (message reason) ≡ asks_for_pairing
  unfolding wants_authentication is_auth_status
  wants_authentication-message reason h =
      ap is_auth_status (status_code-message reason h) ∙ ground arith

  first_line :
      (reason more : Text)
      → any is_control reason ≡ false
      → nth 0 (lines (status_line a b c reason ++ (13 ∷ 10 ∷ more)))
        ≡ some (status_line a b c reason)
  unfolding nth
  first_line reason more h =
      ap (nth 0) (lines-crlf (status_line a b c reason) more (status_line-printable reason h))

  -- Let the answer to POST /stream begin with a status line of three digits, whatever its reason,
  -- if that has no control character, and whatever headers follow. Then the session mirrors if the status lies between 200 and 299; it
  -- pairs if the status is 401, 403, 404, 470 or 501; and it gives up otherwise, with a message that
  -- ends in the status line.
  pub after_stream-status :
      (reason more : Text)
      → any is_control reason ≡ false
      → after_stream (check_stream_answer (status_line a b c reason ++ (13 ∷ 10 ∷ more))) ≡ (
          if leb 200 (code_of a b c) && ltb (code_of a b c) 300
          then mirror
          else if asks_for_pairing
          then pair
          else give_up (codes "POST /stream failed: " ++ status_line a b c reason))
  unfolding after_stream check_stream_answer status_is_success is_success
  after_stream-status reason more h =
      (λ i. after_stream (
        if is_success (status_of-status_line reason more h i)
        then ok tt
        else err (
            codes "POST /stream failed: "
            ++ or_else (first_line reason more h i) (codes "<no status line>"))))
      ∙ after_stream-if (leb 200 (code_of a b c) && ltb (code_of a b c) 300) asks_for_pairing
          (message reason) (wants_authentication-message reason h)
