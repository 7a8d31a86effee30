-- ===== src/Sender/Dialogs/Examples.antt =====
-- Tests of the entries by hand, and their theorems at concrete inputs.
use openplay.Sender.Receivers.{key}
use openplay.Prelude.Strings.{trim, digits_value, from_str_radix, is_some, is_whitespace, to_digit}
use openplay.Prelude.{true, false, []}
use openplay.Prelude.{
  codes, none, some, refl, Text, Option, text_eq, if◌then◌else◌, ◌≡◌, ◌⊎◌, ℕ, ◌∷◌, utf8_len,
}
use openplay.Sender.App.{SenderApp, new}
use openplay.Sender.Dialogs.{Dialogs, initial, add_airplay, add_miracast, parse_port}
use openplay.Sender.Dialogs.Entry.{
  add_airplay-IsKept_or_IsAdded, add_airplay-listed_ignored, IsKept, IsAdded,
}

-- A reader that knows one address.
abbrev from_str : Text → Option Text
from_str t = if text_eq t (codes "10.0.0.7") then some t else none

abbrev typed : Dialogs
typed = record initial {
  show_add_airplay = true;
  airplay_ip = codes "10.0.0.7";
  airplay_port = codes " 7001 ";
}

abbrev listed_app : SenderApp
listed_app = (add_airplay from_str (typed, new)).1

-- The tests of `parse_port`.
test_ports :
    (parse_port (codes "  7000 ") ≡ some 7000)
    × (parse_port (codes "65535") ≡ some 65535)
    × (parse_port (codes "70000") ≡ none)
    × (parse_port (codes "abc") ≡ none)
    × (parse_port (codes "-1") ≡ none)
    × (parse_port (codes "0") ≡ none)
unfolding parse_port trim digits_value from_str_radix is_whitespace to_digit
test_ports = (refl, refl, refl, refl, refl, refl)

-- A MAC address is not checked for its form.
test_miracast :
    (add_miracast from_str (
      record initial { miracast_is_p2p = true; miracast_addr = codes "aa:bb:cc:dd" },
      new,
    )).1.receiver_keys
    ≡ codes "miracast-p2p-aa:bb:cc:dd" ∷ []
unfolding add_miracast utf8_len is_some key
test_miracast = refl

add_airplay-IsKept_or_IsAdded_example :
    IsKept from_str typed.airplay_ip typed.airplay_port typed new
      (add_airplay from_str (typed, new))
    ⊎ ((ip : Text) × (port : ℕ) × IsAdded from_str typed new ip port
          (add_airplay from_str (typed, new)))
add_airplay-IsKept_or_IsAdded_example = add_airplay-IsKept_or_IsAdded from_str typed new

add_airplay-listed_ignored_example :
    ((add_airplay from_str
        (record typed { airplay_port = codes "7002" }, listed_app)).0.show_add_airplay
      ≡ false)
    × ((add_airplay from_str (record typed { airplay_port = codes "7002" }, listed_app)).1
        ≡ listed_app)
unfolding add_airplay parse_port text_eq from_str_radix is_whitespace to_digit is_some key
add_airplay-listed_ignored_example =
    add_airplay-listed_ignored from_str (record typed { airplay_port = codes "7002" }) listed_app
      (codes "10.0.0.7") 7002 refl refl refl
