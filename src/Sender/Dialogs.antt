-- ===== src/Sender/Dialogs.antt =====
-- crates/openplay-sender/src/app.rs: the two windows in which a receiver is entered by hand.
pub mod Entry
mod Examples
use openplay.Prelude.{
  Text, Option, Result, Bool, List, ℕ, codes, none, some, ok, err, true, false, [], ◌∷◌, ◌++◌, ◌==◌,
  ◌&&◌, leb, any, utf8_len, if◌then◌else◌,
}
use openplay.Prelude.Strings.{trim, parse_number, decimal}
use openplay.Sender.App.{SenderApp, add_receiver}
use openplay.Sender.Receivers.{
  DiscoveredReceiver, AirPlayReceiverInfo, airplay_receiver, miracast_receiver, infrastructure,
  wifi_direct,
}

pub record Dialogs : Type 0 where
  pub show_add_airplay : Bool
  pub airplay_name : Text
  pub airplay_ip : Text
  pub airplay_port : Text
  pub show_add_miracast : Bool
  pub miracast_name : Text
  pub miracast_addr : Text
  pub miracast_port : Text
  pub miracast_is_p2p : Bool

abbrev pub default_airplay_port : ℕ
default_airplay_port = 7000

abbrev pub default_miracast_port : ℕ
default_miracast_port = 7236

abbrev pub initial : Dialogs
initial = record {
  show_add_airplay = false;
  airplay_name = [];
  airplay_ip = [];
  airplay_port = decimal default_airplay_port;
  show_add_miracast = false;
  miracast_name = [];
  miracast_addr = [];
  miracast_port = decimal default_miracast_port;
  miracast_is_p2p = false;
}

abbrev pub invalid_port_msg : Text
invalid_port_msg = codes "Invalid port — expected 1-65535"

unfoldable pub nonzero : Option ℕ → Option ℕ
nonzero none = none
nonzero (some port) = if port == 0 then none else some port

unfoldable pub parse_port : (raw : Text) → Option ℕ
unfolding nonzero trim
parse_port raw = nonzero (parse_number 65535 (trim raw))

-- The name that was typed, or the address when there is none.
unfoldable pub name_or : (addr name : Text) → Text
name_or addr [] = addr
name_or addr (c ∷ t) = c ∷ t

-- An address and a port that were typed, or what the status says of them. A parsed address is the
-- text that it is printed as.
unfoldable pub destination : (ip : Option Text) (port : Option ℕ) → Result (Text × ℕ) Text
destination (some ip) (some port) = ok (ip, port)
destination none port = err (codes "Invalid IP address")
destination (some ip) none = err invalid_port_msg

abbrev pub manual_airplay : (name : Text) → Text × ℕ → DiscoveredReceiver
manual_airplay name (ip, port) = airplay_receiver (record {
  name = codes "manual-airplay-" ++ ip;
  display_name = name;
  addresses = ip ∷ [];
  port = port;
  device_id = [];
  features = [];
  model = codes "Manual";
})

abbrev map_ok :
    (Text × ℕ → DiscoveredReceiver) → Result (Text × ℕ) Text → Result DiscoveredReceiver Text
map_ok f (ok a) = ok (f a)
map_ok f (err e) = err e

-- What the button `Add` of the AirPlay window makes of the entry.
unfoldable pub airplay_entry :
    (from_str : Text → Option Text) → Dialogs → Result DiscoveredReceiver Text
unfolding destination parse_port name_or
airplay_entry from_str d =
    map_ok (manual_airplay (name_or d.airplay_ip d.airplay_name))
      (destination (from_str d.airplay_ip) (parse_port d.airplay_port))

abbrev manual_miracast : (name : Text) → Text × ℕ → DiscoveredReceiver
manual_miracast name (ip, port) = miracast_receiver name (infrastructure ip port)

-- The same of the Miracast window. The length is that of the UTF-8 bytes.
unfoldable pub miracast_entry :
    (from_str : Text → Option Text) → Dialogs → Result DiscoveredReceiver Text
unfolding destination parse_port name_or
miracast_entry from_str d =
    if d.miracast_is_p2p
    then if leb 11 (utf8_len d.miracast_addr) && any (λ c. c == b':') d.miracast_addr
      then ok (
          miracast_receiver (name_or d.miracast_addr d.miracast_name) (wifi_direct d.miracast_addr))
      else err (codes "Invalid MAC address")
    else map_ok (manual_miracast (name_or d.miracast_addr d.miracast_name))
        (destination (from_str d.miracast_addr) (parse_port d.miracast_port))

-- The window is closed only when something was added.
unfoldable pub submit :
    (cleared : Dialogs) → Result DiscoveredReceiver Text → Dialogs × SenderApp → Dialogs × SenderApp
unfolding add_receiver
submit cleared (ok r) (d, s) = (cleared, add_receiver r s)
submit cleared (err reason) (d, s) = (d, record s { status = reason })

unfoldable pub add_airplay :
    (from_str : Text → Option Text) → Dialogs × SenderApp → Dialogs × SenderApp
unfolding submit airplay_entry
add_airplay from_str (d, s) =
    submit
      (record d {
        show_add_airplay = false;
        airplay_name = [];
        airplay_ip = [];
        airplay_port = decimal default_airplay_port;
      })
      (airplay_entry from_str d) (d, s)

unfoldable pub add_miracast :
    (from_str : Text → Option Text) → Dialogs × SenderApp → Dialogs × SenderApp
unfolding submit miracast_entry
add_miracast from_str (d, s) =
    submit
      (record d {
        show_add_miracast = false;
        miracast_name = [];
        miracast_addr = [];
        miracast_port = decimal default_miracast_port;
        miracast_is_p2p = false;
      })
      (miracast_entry from_str d) (d, s)
