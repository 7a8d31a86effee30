-- ===== src/Sender/Receivers.antt =====
-- crates/openplay-sender/src/receiver_list.rs: the receivers that were discovered or entered. An IP
-- address is the text that it is printed as.
use openplay.Prelude.{
  none, some, true, false, [], Option, Text, Bool, List, ℕ, codes, map, ◌∷◌, ◌++◌,
}

abbrev pub SocketAddr : Type 0
SocketAddr = Text × ℕ

pub record ReceiverInfo : Type 0 where
  pub name : Text
  pub display_name : Text
  pub addresses : List Text
  pub port : ℕ
  pub fingerprint : Text
  pub video_codecs : List Text
  pub resolution : Text
  pub max_fps : ℕ

pub record AirPlayReceiverInfo : Type 0 where
  pub name : Text
  pub display_name : Text
  pub addresses : List Text
  pub port : ℕ
  pub device_id : Text
  pub features : Text
  pub model : Text

pub data MiracastMode : Type 0 where
  infrastructure : (addr : Text) (port : ℕ) → MiracastMode
  wifi_direct : (device_address : Text) → MiracastMode

pub data DiscoveredReceiver : Type 0 where
  openplay_receiver : ReceiverInfo → DiscoveredReceiver
  airplay_receiver : AirPlayReceiverInfo → DiscoveredReceiver
  miracast_receiver : (display_name : Text) (mode : MiracastMode) → DiscoveredReceiver

unfoldable pub fingerprint_of : DiscoveredReceiver → Option Text
fingerprint_of (openplay_receiver r) = some r.fingerprint
fingerprint_of (airplay_receiver r) = none
fingerprint_of (miracast_receiver name mode) = none

abbrev with_port : ℕ → List Text → List SocketAddr
with_port port ips = map (λ ip. (ip, port)) ips

unfoldable pub addrs : DiscoveredReceiver → List SocketAddr
addrs (openplay_receiver r) = with_port r.port r.addresses
addrs (airplay_receiver r) = with_port r.port r.addresses
addrs (miracast_receiver name (infrastructure addr port)) = (addr, port) ∷ []
addrs (miracast_receiver name (wifi_direct device_address)) = []

-- The address to connect to, by the receiver's own list of addresses.
unfoldable pub addr_of : DiscoveredReceiver → Option SocketAddr
addr_of (openplay_receiver r) = elim r.addresses [ [] ↦ none | ip ∷ ips ↦ some (ip, r.port) ]
addr_of (airplay_receiver r) = elim r.addresses [ [] ↦ none | ip ∷ ips ↦ some (ip, r.port) ]
addr_of (miracast_receiver name (infrastructure addr port)) = some (addr, port)
addr_of (miracast_receiver name (wifi_direct device_address)) = none

unfoldable pub is_wifi_direct : DiscoveredReceiver → Bool
is_wifi_direct (openplay_receiver r) = false
is_wifi_direct (airplay_receiver r) = false
is_wifi_direct (miracast_receiver name (infrastructure addr port)) = false
is_wifi_direct (miracast_receiver name (wifi_direct device_address)) = true

-- The key under which the list holds a receiver.
unfoldable pub key : DiscoveredReceiver → Text
key (openplay_receiver r) = r.name
key (airplay_receiver r) = r.name
key (miracast_receiver name (infrastructure addr port)) = codes "miracast-" ++ addr
key (miracast_receiver name (wifi_direct device_address)) = codes "miracast-p2p-" ++ device_address
