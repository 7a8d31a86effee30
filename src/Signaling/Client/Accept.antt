-- ===== src/Signaling/Client/Accept.antt =====
-- The acceptance of the receiver (crates/openplay-receiver/src/net.rs) on its way through the client
-- (crates/openplay-signaling/src/client.rs) to the wait of the sender.
use openplay.Sender.Session.{Heard, received}
use openplay.Prelude.{none, some, err, refl}
use openplay.Prelude.{ok, true, false, [], Text, Option, Bool, ◌≡◌, List, All, map, codes, ◌∷◌}
use openplay.Signaling.Client.{
  read_incoming, read_frame, pass_on, parsed, Frame, text, close, other_frame, web_socket_error,
}
use openplay.Protocol.Validate.{validate, check_name, Validation}
use openplay.Protocol.Message.{session_accept, NegotiatedParams, SignalingMessage}

abbrev IsValid : SignalingMessage → Type 0
IsValid m = validate m ≡ ok tt

pass_on-IsValid :
    (v : Validation) (m : SignalingMessage) (channel_open : Bool) (later : List SignalingMessage)
    → validate m ≡ v
    → All IsValid later
    → All IsValid (pass_on v m channel_open later)
unfolding pass_on
pass_on-IsValid (err x) m channel_open later e h = h
pass_on-IsValid (ok u) m true later e h = (e, h)
pass_on-IsValid (ok u) m false later e h = tt

parsed-IsValid :
    (m : Option SignalingMessage) (channel_open : Bool) (later : List SignalingMessage)
    → All IsValid later
    → All IsValid (parsed m channel_open later)
unfolding parsed
parsed-IsValid none channel_open later h = h
parsed-IsValid (some m) channel_open later h =
    pass_on-IsValid (validate m) m channel_open later refl h

module _ (from_str : Text → Option SignalingMessage) where
  read_frame-IsValid :
      (frame : Frame) (channel_open : Bool) (later : List SignalingMessage)
      → All IsValid later
      → All IsValid (read_frame from_str frame channel_open later)
  unfolding read_frame
  read_frame-IsValid (text t) channel_open later h =
      parsed-IsValid (from_str t) channel_open later h
  read_frame-IsValid close channel_open later h = tt
  read_frame-IsValid other_frame channel_open later h = h
  read_frame-IsValid web_socket_error channel_open later h = tt

  -- Whatever the receiver sends, every message that reaches the sender's session is valid.
  pub read_incoming-IsValid :
      (frames : List (Frame × Bool)) → All (λ m. validate m ≡ ok tt) (read_incoming from_str frames)
  unfolding read_incoming
  read_incoming-IsValid [] = tt
  read_incoming-IsValid ((frame, channel_open) ∷ rest) =
      read_frame-IsValid frame channel_open _ (read_incoming-IsValid rest)

  -- What the wait of the sender hears of a receiver's frames.
  abbrev pub hears : List (Frame × Bool) → List (Bool × Heard)
  hears frames = map (λ m. (false, received (some m))) (read_incoming from_str frames)

  pub accept_frame :
      (json receiver_id : Text) (negotiated : NegotiatedParams) (checked : Validation)
      → from_str json ≡ some (session_accept receiver_id negotiated)
      → check_name (codes "receiver_id") receiver_id ≡ checked
      → read_incoming from_str ((text json, true) ∷ [])
        ≡ pass_on checked (session_accept receiver_id negotiated) true []
  unfolding read_incoming parsed validate
  accept_frame json receiver_id negotiated checked parses e = rw (parses, e) refl
