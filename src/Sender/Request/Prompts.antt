-- ===== src/Sender/Request/Prompts.antt =====
-- The request of the sender (crates/openplay-sender/src/casting.rs) before the checks of the protocol
-- and the session loop of the receiver.
use openplay.Prelude.Lines.{any-append, any-take, any-without_controls}
use openplay.Signaling.{ConnectionHandle}
use openplay.Prelude.{none, ok}
use openplay.Prelude.{
  zero, suc, false, refl, [], ℕ, is_control, Text, map, ◌<◌, any, ◌≡◌, ◌++◌, ◌∷◌, arith, length, ap,
  ◌/◌, length-take, ◌≤◌, ◌∙◌, ◌%◌, length-append, text_eq,
}
use openplay.Prelude.Strings.{trim, hex_fixed, hex_digit, lower, without_controls}
use openplay.Protocol.Validate.{validate, max_name_chars}
use openplay.Protocol.Validate.Bounds.{IsName, validate-session_request_iff}
use openplay.Receiver.Loop.{
  SessionLoop, handle_signaling, handle_session_request, prompt, is_casting_for_other,
  is_prompting_for_other, MediaEnv,
}
use openplay.Sender.Request.{
  name_or_fallback, sanitise_display_name, sender_id, offered_capabilities, casting_request,
  unless_blank,
}

digit-printable : (d : ℕ) → d < 16 → is_control (lower (hex_digit d)) ≡ false
unfolding is_control lower hex_digit
digit-printable d h = ground arith

map-append : (f : ℕ → ℕ) (xs ys : Text) → map f (xs ++ ys) ≡ map f xs ++ map f ys
map-append f [] ys = refl
map-append f (x ∷ xs) ys = ap (◌∷◌ (f x)) (map-append f xs ys)

hex-printable :
    (w n : ℕ)
    → (any is_control (map lower (hex_fixed w n)) ≡ false)
      × (length (map lower (hex_fixed w n)) ≡ w)
unfolding hex_fixed
hex-printable zero n = (refl, refl)
hex-printable (suc w) n = (
  ap (any is_control) (map-append lower (hex_fixed w (n / 16)) _)
      ∙ any-append _ _ (hex-printable w (n / 16)).0
          (ground (arith, digit-printable (n % 16) (omega arith))),
  ap length (map-append lower (hex_fixed w (n / 16)) _)
      ∙ omega (
        arith,
        length-append (map lower (hex_fixed w (n / 16))) (lower (hex_digit (n % 16)) ∷ []),
        hex-printable w (n / 16),
      ),
)

sender_id-IsName : (hash : ℕ) → IsName (sender_id hash)
unfolding sender_id is_control
sender_id-IsName hash = record {
  nonempty = λ e. cc;
  short = omega (arith, hex-printable 16 hash);
  printable = (hex-printable 16 hash).0;
}

unless_blank-IsName :
    (trimmed cleaned : Text)
    → trim cleaned ≡ trimmed
    → length cleaned ≤ max_name_chars
    → any is_control cleaned ≡ false
    → IsName (unless_blank trimmed cleaned)
unfolding unless_blank trim is_control
unless_blank-IsName [] cleaned e short printable = record {
  nonempty = λ e. cc;
  short = omega arith;
  printable = refl;
}
unless_blank-IsName (c ∷ t) [] e short printable = absurd cc
unless_blank-IsName (c ∷ t) (d ∷ r) e short printable = record {
  nonempty = λ e. cc;
  short = short;
  printable = printable;
}

sanitise_display_name-IsName : (name : Text) → IsName (sanitise_display_name name)
unfolding sanitise_display_name name_or_fallback
sanitise_display_name-IsName name =
    unless_blank-IsName _ _ refl (omega (arith, length-take max_name_chars (without_controls name)))
      (any-take max_name_chars _ (any-without_controls name))

casting_request-validate :
    (hash : ℕ) (name : Text) (width height framerate : ℕ)
    → validate (casting_request hash name width height framerate) ≡ ok tt
unfolding casting_request offered_capabilities
casting_request-validate hash name width height framerate =
    (validate-session_request_iff _ _ _ _).1 (
      sender_id-IsName hash,
      sanitise_display_name-IsName name,
      (omega arith, (omega arith, tt)),
      (omega arith, tt),
    )

-- The request of the sender, whatever name is configured and whatever the hash, the size and the
-- frame rate are, passes the checks of the protocol, and a receiver that neither casts nor prompts
-- puts it before its user: nothing is sent, and the prompt shows the sanitised name.
pub casting_request-prompts :
    (hash : ℕ) (name : Text) (width height framerate : ℕ) (s : SessionLoop) (connection : ℕ)
    (reply : ConnectionHandle) (env : MediaEnv)
    → s.active ≡ none
    → s.pending ≡ []
    → (validate (casting_request hash name width height framerate) ≡ ok tt)
      × (handle_signaling (casting_request hash name width height framerate) s connection reply env
          ≡ (
            prompt s connection reply
                (sanitise_display_name name)
                (offered_capabilities width height framerate),
            [],
          ))
unfolding casting_request handle_signaling handle_session_request is_casting_for_other
    is_prompting_for_other offered_capabilities text_eq
casting_request-prompts hash name width height framerate s connection reply env idle silent =
    (casting_request-validate hash name width height framerate, rw (idle, silent) refl)
