-- ===== src/Signaling/Client.antt =====
-- crates/openplay-signaling/src/client.rs: the task that reads what the receiver sends. The JSON
-- reader (serde_json) is the parameter `from_str`; frames arrive with whether the channel to the
-- sender's session still takes a message. A message above MAX_MESSAGE_BYTES is refused by the WebSocket
-- library, which is configured with that limit, and comes as `web_socket_error`.
pub mod Accept
pub mod Naming
mod Examples
use openplay.Prelude.{true, false}
use openplay.Prelude.{none, some, ok, err, [], if◌then◌else◌, Text, Option, List, Bool, ◌∷◌}
use openplay.Protocol.Validate.{validate, Validation}
use openplay.Protocol.Message.{SignalingMessage}

pub data Frame : Type 0 where
  text : Text → Frame
  close other_frame web_socket_error : Frame

-- A message that was read, by what `validate` says of it, before those that come later.
unfoldable pub pass_on :
    Validation
    → SignalingMessage
    → (channel_open : Bool) (later : List SignalingMessage) → List SignalingMessage
pass_on (err e) message channel_open later = later
pass_on (ok u) message true later = message ∷ later
pass_on (ok u) message false later = []

unfoldable pub parsed :
    Option SignalingMessage
    → (channel_open : Bool) (later : List SignalingMessage) → List SignalingMessage
unfolding pass_on
parsed none channel_open later = later
parsed (some message) channel_open later = pass_on (validate message) message channel_open later

module _ (from_str : Text → Option SignalingMessage) where
  unfoldable pub read_frame :
      Frame → (channel_open : Bool) (later : List SignalingMessage) → List SignalingMessage
  unfolding parsed
  read_frame (text t) channel_open later = parsed (from_str t) channel_open later
  read_frame close channel_open later = []
  read_frame other_frame channel_open later = later
  read_frame web_socket_error channel_open later = []

  -- The messages that the channel takes, in order. What `validate` refuses is dropped, and a closed
  -- channel, a close and an error end the task.
  unfoldable pub read_incoming : List (Frame × Bool) → List SignalingMessage
  unfolding read_frame
  read_incoming [] = []
  read_incoming ((frame, channel_open) ∷ rest) = read_frame frame channel_open (read_incoming rest)
