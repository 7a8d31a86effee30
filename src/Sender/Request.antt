-- ===== src/Sender/Request.antt =====
-- crates/openplay-sender/src/casting.rs: how the sender asks a receiver for a session. What the
-- hasher of the standard library answers is an argument.
pub mod Prompts
mod Examples
use openplay.Prelude.{
  some, true, [], if◌then◌else◌, ℕ, Text, ◌∷◌, codes, take, ◌++◌, is_control, map,
}
use openplay.Prelude.Strings.{trim, hex_fixed, lower, without_controls}
use openplay.Protocol.Message.{SignalingMessage, session_request, Capabilities, Resolution}
use openplay.Protocol.Validate.{max_name_chars}
use openplay.Receiver.Loop.{protocol_version}

abbrev pub fallback_name : Text
fallback_name = codes "OpenPlay Sender"

-- What is sent for the name, by what is left of it after `trim`.
unfoldable pub unless_blank : (trimmed cleaned : Text) → Text
unless_blank [] cleaned = fallback_name
unless_blank (c ∷ t) cleaned = cleaned

unfoldable pub name_or_fallback : Text → Text
unfolding unless_blank
name_or_fallback cleaned = unless_blank (trim cleaned) cleaned

unfoldable pub sanitise_display_name : Text → Text
unfolding without_controls name_or_fallback
sanitise_display_name name = name_or_fallback (take max_name_chars (without_controls name))

-- `{:016x}` of the hash.
unfoldable pub sender_id : (hash : ℕ) → Text
sender_id hash = codes "openplay-" ++ map lower (hex_fixed 16 hash)

unfoldable pub offered_capabilities : (width height framerate : ℕ) → Capabilities
offered_capabilities width height framerate = record {
  video_codecs = codes "h264" ∷ [];
  audio_codecs = [];
  max_resolution = some (record { width = width; height = height });
  max_framerate = some framerate;
  supports_cursor = true;
}

unfoldable pub casting_request :
    (hash : ℕ) (display_name : Text) (width height framerate : ℕ) → SignalingMessage
casting_request hash display_name width height framerate =
    session_request (sender_id hash) (sanitise_display_name display_name) protocol_version
      (offered_capabilities width height framerate)
