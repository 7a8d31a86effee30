-- ===== src/Sender/App/Examples.antt =====
-- Tests of the sender's window, and its theorems at concrete inputs.
use openplay.Prelude.Strings.{is_some}
use openplay.Prelude.{codes, [], none, ok, refl, true, false, ◌∷◌, List, ◌≡◌, arith, text_eq}
use openplay.Sender.App.{
  SenderApp, new, MiracastReceiverInfo, app_step, on_statuses, entered, miracast_mode, row_clicked,
  first_messages, AppEvent, miracast_p2p_cast, discovered, find_receiver, start_clicked,
  receiver_found, on_discovery, cancelled, miracast_receiver_lost, receiver_lost,
  miracast_receiver_found, final_message, on_status,
}
use openplay.Sender.App.Consistent.{app_run, app_step-IsConsistent, IsConsistent, app_scan}
use openplay.Sender.App.Done.{resumption, cast_messages-IsIdle, IsIdle}
use openplay.Sender.App.Lost.{lost_infrastructure_stays}
use openplay.Sender.Receivers.{ReceiverInfo, openplay_receiver, key}

abbrev desk : ReceiverInfo
desk = record {
  name = codes "desk";
  display_name = codes "Desk";
  addresses = codes "192.168.1.10" ∷ [];
  port = 7351;
  fingerprint = codes "ab";
  video_codecs = codes "h264" ∷ [];
  resolution = codes "1920x1080";
  max_fps = 30;
}

abbrev nowhere : ReceiverInfo
nowhere = record desk { name = codes "nowhere"; addresses = [] }

abbrev tv : MiracastReceiverInfo
tv = record {
  name = codes "tv._mice._tcp.local.";
  display_name = codes "TV";
  addresses = codes "192.168.1.5" ∷ [];
  port = 7236;
  device_info = [];
}

abbrev events : List AppEvent
events =
    discovered (receiver_found desk)
    ∷ entered (openplay_receiver nowhere)
    ∷ row_clicked (codes "desk")
    ∷ start_clicked
    ∷ discovered (receiver_lost (codes "desk"))
    ∷ []

abbrev casting_app : SenderApp
casting_app = app_run events new

test_run : (casting_app.is_casting ≡ true) × (casting_app.selected_key ≡ none)
unfolding app_step text_eq key
test_run = (refl, refl)

-- A cast to a receiver without an address never starts.
test_nowhere :
    (app_run
      (entered (openplay_receiver nowhere) ∷ row_clicked (codes "nowhere") ∷ start_clicked ∷ [])
      new).is_casting
    ≡ false
unfolding app_step text_eq key
test_nowhere = refl

app_step-IsConsistent_example :
    IsConsistent casting_app × (app_scan events new false ≡ casting_app.p2p_discovery_paused)
app_step-IsConsistent_example = app_step-IsConsistent events

cast_messages-IsIdle_example :
    let t = on_statuses (first_messages miracast_p2p_cast (ok cancelled)) casting_app in
    let last = final_message miracast_p2p_cast (ok cancelled) (codes "task 5 was cancelled") in
    (t.is_casting ≡ true)
    × IsIdle last (on_status last t).0
    × ((on_status last t).1 ≡ resumption casting_app.p2p_discovery_paused)
cast_messages-IsIdle_example =
    cast_messages-IsIdle miracast_p2p_cast (ok cancelled) (codes "task 5 was cancelled") casting_app
      test_run.0

lost_infrastructure_stays_example :
    is_some (
      find_receiver
        (codes "miracast-192.168.1.5")
        (on_discovery
          (miracast_receiver_lost tv.name)
          (on_discovery (miracast_receiver_found tv) new)).receivers)
    ≡ true
unfolding miracast_mode
lost_infrastructure_stays_example =
    lost_infrastructure_stays tv (codes "192.168.1.5") 7236 new refl
      (λ h. absurd (ground (arith, h)))
