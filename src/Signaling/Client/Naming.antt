-- ===== src/Signaling/Client/Naming.antt =====
-- The name of a receiver's configuration (crates/openplay-common/src/config.rs) in the acceptance
-- that the receiver sends (crates/openplay-receiver/src/net.rs), before the checks of the sender's
-- client (crates/openplay-signaling/src/client.rs).
use openplay.Protocol.Validate.{max_name_chars, check_name, ValidationError, Validation}
use openplay.Protocol.Message.{SignalingMessage, session_accept, NegotiatedParams}
use openplay.Prelude.Strings.{trim}
use openplay.Prelude.{
  none, some, ok, err, inl, inr, true, false, refl, [], ℕ, Text, Option, ◌≢◌, ◌≡◌, ◌∷◌, codes, ◌<◌,
  length, ◌⊎◌, any, Result-cases, is_control, subst, arith, sym, map, ◌∙◌, ap, List, Bool,
}
use openplay.Signaling.Client.{text, pass_on}
use openplay.Signaling.Client.Accept.{hears, accept_frame}
use openplay.Config
use openplay.Config.{AppConfig}
use openplay.Config.Usable.{validate_iff}
use openplay.Receiver.Loop.{SessionLoop, Pending, approve, sent}
use openplay.Sender.Session.{wait_for_session_accept, wait_round, or_wait, received, Heard}
use openplay.Protocol.Validate.Bounds.{IsName, check_name_iff}

-- The message by which the loop accepts.
abbrev pub acceptance : SessionLoop → Pending → SignalingMessage
acceptance s p = session_accept s.config.display_name (record {
  video_codec = codes "h264";
  audio_codec = none;
  max_bitrate_kbps = s.config.max_bitrate_kbps;
  framerate = p.framerate;
})

approve-acceptance :
    (s : SessionLoop) (connection : ℕ) (p : Pending)
    → (approve s connection p).1 ≡ sent p.reply (acceptance s p) ∷ []
unfolding approve
approve-acceptance s connection p = refl

-- Too long, or with a control character.
abbrev pub IsUnfit : Text → Type 0
IsUnfit t = (max_name_chars < length t) ⊎ (any is_control t ≡ true)

check_name-IsUnfit :
    (f t : Text) (x : ValidationError) → t ≢ [] → check_name f t ≡ err x → IsUnfit t
unfolding check_name
check_name-IsUnfit f [] x nonempty e = absurd (nonempty refl)
check_name-IsUnfit f (c ∷ t) x nonempty e = ground arith

check_name-cases :
    (f t : Text)
    → t ≢ []
    → ((check_name f t ≡ ok tt) × IsName t)
      ⊎ ((e : ValidationError) × (check_name f t ≡ err e) × IsUnfit t)
check_name-cases f t nonempty = elim (Result-cases (check_name f t)) [
  | inl (u, e) ↦ inl (e, (check_name_iff f t).0 e)
  | inr (x, e) ↦ inr (x, e, check_name-IsUnfit f t x nonempty e)
]

trim-nonempty : (t : Text) → trim t ≢ [] → t ≢ []
unfolding trim
trim-nonempty [] h e = h refl
trim-nonempty (c ∷ t) h e = cc

-- What the wait hears of a message that passed, and of one that did not.
abbrev heard_of : Validation → SignalingMessage → List (Bool × Heard)
heard_of checked m = map (λ x. (false, received (some x))) (pass_on checked m true [])

accepting :
    (r : Text) (n : NegotiatedParams)
    → wait_for_session_accept (heard_of (ok tt) (session_accept r n)) ≡ some (ok tt)
unfolding wait_for_session_accept wait_round or_wait pass_on
accepting r n = refl

waiting_on :
    (x : ValidationError) (m : SignalingMessage)
    → wait_for_session_accept (heard_of (err x) m) ≡ none
unfolding wait_for_session_accept pass_on
waiting_on x m = refl

named :
    (c : AppConfig) (s : SessionLoop)
    → openplay.Config.validate c ≡ ok tt
    → s.config.display_name ≡ c.display_name
    → s.config.display_name ≢ []
named c s valid same e =
    trim-nonempty c.display_name ((validate_iff c).0 valid).named (sym same ∙ e)

module _ (from_str : Text → Option SignalingMessage) where
  heard :
      (json r : Text) (n : NegotiatedParams) (checked : Validation)
      → from_str json ≡ some (session_accept r n)
      → check_name (codes "receiver_id") r ≡ checked
      → wait_for_session_accept (hears from_str ((text json, true) ∷ []))
        ≡ wait_for_session_accept (heard_of checked (session_accept r n))
  heard json r n checked parses e =
      ap (λ ms. wait_for_session_accept (map (λ m. (false, received (some m))) ms))
        (accept_frame from_str json r n checked parses e)

  -- Let a receiver run with a configuration that passes, and let the JSON of its acceptance be read
  -- back as that acceptance. Then an approval sends it; and either the name has at most 64
  -- characters, none a control character, and the sender's wait ends well, or it is longer or has
  -- one, and the client drops the message: the sender goes on waiting.
  pub acceptance-heard_or_dropped :
      (c : AppConfig) (s : SessionLoop) (connection : ℕ) (p : Pending) (json : Text)
      → openplay.Config.validate c ≡ ok tt
      → s.config.display_name ≡ c.display_name
      → from_str json ≡ some (acceptance s p)
      → ((approve s connection p).1 ≡ sent p.reply (acceptance s p) ∷ [])
        × ((IsName c.display_name
              × (wait_for_session_accept (hears from_str ((text json, true) ∷ [])) ≡ some (ok tt)))
            ⊎ (IsUnfit c.display_name
                × (wait_for_session_accept (hears from_str ((text json, true) ∷ [])) ≡ none)))
  acceptance-heard_or_dropped c s connection p json valid same parses = (
    approve-acceptance s connection p,
    elim (check_name-cases (codes "receiver_id") s.config.display_name (named c s valid same)) [
      | inl (e, name) ↦ inl (
        subst IsName same name,
        heard json _ _ (ok tt) parses e ∙ accepting s.config.display_name _,
      )
      | inr (x, e, unfit) ↦ inr (
        subst IsUnfit same unfit,
        heard json _ _ (err x) parses e ∙ waiting_on x (acceptance s p),
      )
    ],
  )
