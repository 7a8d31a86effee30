-- ===== src/Sender/Request/Examples.antt =====
-- Names of senders, and the request of one before a receiver that is idle.
use openplay.Prelude.Strings.{hex_fixed, trim, lower, is_whitespace}
use openplay.Protocol.Validate.{validate}
use openplay.Prelude.{none, ok, refl, [], ◌≡◌, codes, ◌++◌, ◌∷◌, is_control}
use openplay.Sender.Request.{
  casting_request, sanitise_display_name, offered_capabilities, fallback_name, sender_id,
}
use openplay.Sender.Request.Prompts.{casting_request-prompts}
use openplay.Receiver.Loop.{SessionLoop, handle_signaling, prompt, waiting, empty_slot, MediaEnv}

sanitise_display_name-controls : sanitise_display_name (codes "a" ++ (10 ∷ codes "b")) ≡ codes "ab"
unfolding sanitise_display_name trim is_control is_whitespace
sanitise_display_name-controls = refl

sanitise_display_name-blank : sanitise_display_name (codes "  ") ≡ fallback_name
unfolding sanitise_display_name trim is_control is_whitespace
sanitise_display_name-blank = refl

sender_id-small : sender_id 171 ≡ codes "openplay-00000000000000ab"
unfolding sender_id hex_fixed lower
sender_id-small = refl

abbrev idle_loop : SessionLoop
idle_loop = record {
  undiscoverable = none;
  active = none;
  pending = [];
  frame = empty_slot;
  status = waiting;
  config = record { display_name = codes "tv"; max_bitrate_kbps = 6000; framerate = 30 };
}

abbrev env : MediaEnv
env = record {
  with_frame_handler = ok 40;
  start = ok tt;
  peer = 50;
  set_remote_description = λ sdp. ok tt;
  now_millis = 0;
}

casting_request-prompts_sample :
    (validate (casting_request 171 (codes "ann") 1920 1080 60) ≡ ok tt)
    × (handle_signaling
          (casting_request 171 (codes "ann") 1920 1080 60)
          idle_loop
          7
          (record { id = 7 })
          env
        ≡ (
          prompt idle_loop 7
              (record { id = 7 })
              (sanitise_display_name (codes "ann"))
              (offered_capabilities 1920 1080 60),
          [],
        ))
casting_request-prompts_sample =
    casting_request-prompts 171 (codes "ann") 1920 1080 60 idle_loop 7 (record { id = 7 }) env refl
      refl
