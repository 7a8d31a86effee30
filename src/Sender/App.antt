-- ===== src/Sender/App.antt =====
-- crates/openplay-sender/src/app.rs: the state of the sender's window, without its drawing, on Linux:
-- the list of receivers, the selection, and the cast that is going on, with the messages of a cast
-- (crates/openplay-sender/src/casting.rs).
pub mod Consistent
pub mod Done
pub mod Keys
pub mod Lost
pub mod Scan
mod Examples
use openplay.Prelude.{
  none, some, ok, err, true, false, [], if◌then◌else◌, List, ◌++◌, Text, Option, Bool, Result,
  codes, any, ◌==◌, ◌∷◌, ℕ, text_eq, map, ◌&&◌, ◌||◌, utf8_len,
}
use openplay.Prelude.Strings.{is_some, lower, starts_with}
use openplay.Prelude.Search.{find_subslice}
use openplay.Sender.Receivers.{
  DiscoveredReceiver, openplay_receiver, airplay_receiver, miracast_receiver, infrastructure,
  wifi_direct, ReceiverInfo, AirPlayReceiverInfo, key, is_wifi_direct, addr_of, MiracastMode,
}

-- `stoppable` says that there is a stop handle.
pub record SenderApp : Type 0 where
  pub receivers : List (Text × DiscoveredReceiver)
  pub receiver_keys : List Text
  pub selected_key : Option Text
  pub status : Text
  pub is_casting : Bool
  pub stoppable : Bool
  pub p2p_discovery_paused : Bool

abbrev pub new : SenderApp
new = record {
  receivers = [];
  receiver_keys = [];
  selected_key = none;
  status = codes "Searching for receivers...";
  is_casting = false;
  stoppable = false;
  p2p_discovery_paused = false;
}

-- What the window asks of other tasks.
pub data Effect : Type 0 where
  cast_started : DiscoveredReceiver → Effect
  discovery_paused discovery_resumed stop_signalled : Effect

unfoldable pub find_receiver : Text → List (Text × DiscoveredReceiver) → Option DiscoveredReceiver
find_receiver k [] = none
find_receiver k ((j, r) ∷ m) =
    let later = find_receiver k m in if text_eq j k then some r else later

unfoldable pub without : Text → List (Text × DiscoveredReceiver) → List (Text × DiscoveredReceiver)
without k [] = []
without k ((j, r) ∷ m) = let later = without k m in if text_eq j k then later else (j, r) ∷ later

-- `retain(|k| k != key)`.
unfoldable pub other_keys : Text → List Text → List Text
other_keys k [] = []
other_keys k (j ∷ js) = let later = other_keys k js in if text_eq j k then later else j ∷ later

unfoldable pub add_receiver : DiscoveredReceiver → SenderApp → SenderApp
unfolding find_receiver
add_receiver r s = if is_some (find_receiver (key r) s.receivers) then s else record s {
  receivers = s.receivers ++ ((key r, r) ∷ []);
  receiver_keys = s.receiver_keys ++ (key r ∷ []);
}

unfoldable pub deselect : Text → Option Text → Option Text
deselect k none = none
deselect k (some j) = if text_eq j k then none else some j

unfoldable pub remove_receiver : Text → SenderApp → SenderApp
unfolding find_receiver without other_keys deselect
remove_receiver k s =
    if is_some (find_receiver k s.receivers)
    then record s {
      receivers = without k s.receivers;
      receiver_keys = other_keys k s.receiver_keys;
      selected_key = deselect k s.selected_key;
    }
    else s

pub record MiracastReceiverInfo : Type 0 where
  pub name : Text
  pub display_name : Text
  pub addresses : List Text
  pub port : ℕ
  pub device_info : Text

-- A MAC address is taken for Wi-Fi Direct; the length is that of the UTF-8 bytes.
unfoldable pub miracast_mode : MiracastReceiverInfo → MiracastMode
miracast_mode info =
    if any (λ c. c == b':') info.device_info && (utf8_len info.device_info == 17)
    then wifi_direct info.device_info
    else infrastructure (elim info.addresses [ [] ↦ codes "0.0.0.0" | ip ∷ ips ↦ ip ]) info.port

pub data DiscoveryEvent : Type 0 where
  receiver_found : ReceiverInfo → DiscoveryEvent
  airplay_receiver_found : AirPlayReceiverInfo → DiscoveryEvent
  miracast_receiver_found : MiracastReceiverInfo → DiscoveryEvent
  receiver_lost airplay_receiver_lost miracast_receiver_lost : (name : Text) → DiscoveryEvent

unfoldable pub on_discovery : DiscoveryEvent → SenderApp → SenderApp
unfolding add_receiver remove_receiver miracast_mode
on_discovery (receiver_found info) s = add_receiver (openplay_receiver info) s
on_discovery (airplay_receiver_found info) s = add_receiver (airplay_receiver info) s
on_discovery (miracast_receiver_found info) s =
    add_receiver (miracast_receiver info.display_name (miracast_mode info)) s
on_discovery (receiver_lost name) s = remove_receiver name s
on_discovery (airplay_receiver_lost name) s = remove_receiver name s
on_discovery (miracast_receiver_lost name) s = remove_receiver name s

abbrev pub contains : (part t : Text) → Bool
contains part t = is_some (find_subslice t part)

-- Whether a status message ends the cast. The words are ASCII, and no other letter has one of theirs
-- as its lower case, so that the lower case of ASCII finds the same messages.
unfoldable pub is_done : Text → Bool
unfolding lower find_subslice is_some
is_done msg =
    contains (codes "ended") (map lower msg)
    || contains (codes "failed") (map lower msg)
    || contains (codes "stopped") (map lower msg)
    || contains (codes "error") (map lower msg)

-- The cast is over: the scan that it paused goes on.
unfoldable pub end_cast : SenderApp → SenderApp × List Effect
end_cast s = (
  record s { is_casting = false; stoppable = false; p2p_discovery_paused = false },
  if s.p2p_discovery_paused then discovery_resumed ∷ [] else [],
)

unfoldable pub on_status : Text → SenderApp → SenderApp × List Effect
unfolding is_done end_cast
on_status msg s =
    if is_done msg then end_cast (record s { status = msg }) else (record s { status = msg }, [])

unfoldable pub fail_cast : Text → SenderApp → SenderApp × List Effect
unfolding end_cast
fail_cast reason s = end_cast (record s { status = reason })

-- Why a cast cannot start, if it cannot.
unfoldable pub obstacle : DiscoveredReceiver → Option Text
unfolding addr_of
obstacle (openplay_receiver r) = elim r.addresses [
  | [] ↦ some (codes "Receiver has no reachable address")
  | ip ∷ ips ↦ none
]
obstacle (airplay_receiver r) = elim r.addresses [
  | [] ↦ some (codes "Receiver has no reachable address")
  | ip ∷ ips ↦ none
]
obstacle (miracast_receiver name mode) = none

unfoldable pub pause_unless : (wifi_direct : Bool) → SenderApp → SenderApp × List Effect
pause_unless true s = (s, [])
pause_unless false s = (
  record s { p2p_discovery_paused = true },
  if s.p2p_discovery_paused then [] else discovery_paused ∷ [],
)

unfoldable pub spawn_or_fail :
    DiscoveredReceiver → (obstacle : Option Text) → SenderApp → SenderApp × List Effect
unfolding fail_cast
spawn_or_fail r none s = (s, cast_started r ∷ [])
spawn_or_fail r (some reason) s = fail_cast reason s

unfoldable pub start_cast : DiscoveredReceiver → SenderApp → SenderApp × List Effect
unfolding pause_unless spawn_or_fail obstacle is_wifi_direct
start_cast r s =
    let (paused, first) = pause_unless (is_wifi_direct r) s in
    let (t, then_this) = spawn_or_fail r (obstacle r) (record paused {
      stoppable = true;
      is_casting = true;
      status = codes "Starting capture...";
    }) in
    (t, first ++ then_this)

unfoldable pub stop_cast : SenderApp → SenderApp × List Effect
stop_cast s =
    (record s { status = codes "Stopping..." }, if s.stoppable then stop_signalled ∷ [] else [])

-- The button is there while nothing is cast, and works on the receiver that is selected.
unfoldable pub start_selected : Option DiscoveredReceiver → SenderApp → SenderApp × List Effect
unfolding start_cast
start_selected none s = (s, [])
start_selected (some r) s = if s.is_casting then (s, []) else start_cast r s

abbrev pub selected_receiver : SenderApp → Option DiscoveredReceiver
selected_receiver s = elim s.selected_key [ none ↦ none | some k ↦ find_receiver k s.receivers ]

-- A row of the list is clicked; the rows are those of the keys that the map holds.
unfoldable pub select : Text → SenderApp → SenderApp
unfolding find_receiver
select k s = if is_some (find_receiver k s.receivers) then record s { selected_key = some k } else s

pub data AppEvent : Type 0 where
  discovered : DiscoveryEvent → AppEvent
  entered : DiscoveredReceiver → AppEvent
  status_message : Text → AppEvent
  row_clicked : Text → AppEvent
  start_clicked stop_clicked : AppEvent

unfoldable pub app_step : AppEvent → SenderApp → SenderApp × List Effect
unfolding on_discovery on_status start_selected stop_cast select
app_step (discovered e) s = (on_discovery e s, [])
app_step (entered r) s = (add_receiver r s, [])
app_step (status_message msg) s = on_status msg s
app_step (row_clicked k) s = (select k s, [])
app_step start_clicked s = start_selected (selected_receiver s) s
app_step stop_clicked s = if s.is_casting then stop_cast s else (s, [])

-- The kinds of cast, by the messages they begin with.
pub data CastKind : Type 0 where
  openplay_cast airplay_cast miracast_cast miracast_p2p_cast : CastKind

unfoldable pub connecting : CastKind → Text
connecting openplay_cast = codes "Connecting to OpenPlay receiver..."
connecting airplay_cast = codes "Connecting to AirPlay receiver..."
connecting miracast_cast = codes "Connecting via Miracast..."
connecting miracast_p2p_cast = codes "Forming Wi-Fi Direct P2P group..."

-- How the task of a cast ends.
pub data CastResult : Type 0 where
  finished cancelled : CastResult
  failed panicked : Text → CastResult

-- A cast over Wi-Fi Direct tells no stop from a failure, and no cancellation from a panic.
unfoldable pub last_message : CastKind → CastResult → (cancelled_text : Text) → Text
last_message kind finished cancelled_text = codes "Casting ended"
last_message miracast_p2p_cast cancelled cancelled_text = codes "Casting error: " ++ cancelled_text
last_message _ cancelled cancelled_text = codes "Casting stopped"
last_message miracast_p2p_cast (failed e) cancelled_text = codes "Casting failed: " ++ e
last_message _ (failed e) cancelled_text =
    if contains (codes "stopped by user") e
    then codes "Casting stopped"
    else codes "Casting failed: " ++ e
last_message kind (panicked e) cancelled_text = codes "Casting error: " ++ e

-- The messages before the last; `captured` says whether the capture of the screen began.
unfoldable pub first_messages : CastKind → (captured : Result CastResult Text) → List Text
unfolding connecting
first_messages kind (ok r) = codes "Starting screen capture..." ∷ connecting kind ∷ []
first_messages kind (err e) = codes "Starting screen capture..." ∷ []

unfoldable pub final_message :
    CastKind → (captured : Result CastResult Text) → (cancelled_text : Text) → Text
unfolding last_message
final_message kind (ok r) cancelled_text = last_message kind r cancelled_text
final_message kind (err e) cancelled_text = codes "Capture failed: " ++ e

unfoldable pub on_statuses : List Text → SenderApp → SenderApp
unfolding on_status
on_statuses [] s = s
on_statuses (m ∷ ms) s = on_statuses ms (on_status m s).0
