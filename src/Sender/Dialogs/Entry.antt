-- ===== src/Sender/Dialogs/Entry.antt =====
-- What a click on `Add` does with an entry (crates/openplay-sender/src/app.rs).
use openplay.Sender.App.{add_receiver, SenderApp, find_receiver}
use openplay.Prelude.Strings.{
  digits_value, is_some, to_digit, parse_number, from_str_radix, trim, decimal_onto, or_else,
  decimal,
}
use openplay.Sender.Receivers.{key, DiscoveredReceiver, airplay_receiver}
use openplay.Prelude.{none, some, true, false, refl, []}
use openplay.Prelude.{
  inl, inr, if◌then◌else◌, Text, Option, ℕ, ◌≤◌, ◌≡◌, ◌⊎◌, arith, codes, ◌∷◌, ◌++◌, ltb, ◌*◌, ◌+◌,
  Bool-cases, ◌==◌, ap, ◌≢◌, ◌∙◌,
}
use openplay.Sender.App.Lost.{add_receiver-find, add_receiver-find_other}
use openplay.Sender.Dialogs.{
  default_airplay_port, manual_airplay, name_or, Dialogs, add_airplay, airplay_entry, parse_port,
  submit, nonzero, destination, manual_airplay, name_or,
}

next_digit-bound :
    (o : Option ℕ) (limit n : ℕ) (value : ℕ → ℕ) (more : ℕ → Option ℕ)
    → ((m : ℕ) → m ≤ limit → more m ≡ some n → n ≤ limit)
    → elim o [ none ↦ none | some d ↦ if ltb limit (value d) then none else more (value d) ]
      ≡ some n
    → n ≤ limit
next_digit-bound none limit n value more h e = absurd cc
next_digit-bound (some d) limit n value more h e = elim (Bool-cases (ltb limit (value d))) [
  | inl big ↦ absurd (ground (arith, e, big))
  | inr small ↦ h (value d) (ground arith) (ground (arith, e, small))
]

digits_value-bound :
    (radix limit : ℕ) (t : Text) (v n : ℕ)
    → v ≤ limit
    → digits_value radix limit v t ≡ some n
    → n ≤ limit
unfolding digits_value
digits_value-bound radix limit [] v n h e = ground arith
digits_value-bound radix limit (c ∷ t) v n h e =
    next_digit-bound (to_digit radix c) limit n (λ d. v * radix + d)
      (λ m. digits_value radix limit m t) (λ m k. digits_value-bound radix limit t m n k) e

parse_number-bound : (limit : ℕ) (t : Text) (n : ℕ) → parse_number limit t ≡ some n → n ≤ limit
unfolding from_str_radix
parse_number-bound limit [] n e = absurd cc
parse_number-bound limit (c ∷ []) n e = elim (Bool-cases (c == 0x2b)) [
  | inl plus ↦ absurd (ground (arith, e, plus))
  | inr digit ↦ digits_value-bound 10 limit (c ∷ []) 0 n (omega arith) (ground (arith, e, digit))
]
parse_number-bound limit (c ∷ d ∷ t) n e = elim (Bool-cases (c == 0x2b)) [
  | inl plus ↦ digits_value-bound 10 limit (d ∷ t) 0 n (omega arith) (ground (arith, e, plus))
  | inr digit ↦ digits_value-bound 10 limit (c ∷ d ∷ t) 0 n (omega arith) (ground (arith, e, digit))
]

nonzero-some : (o : Option ℕ) (n : ℕ) → nonzero o ≡ some n → (o ≡ some n) × (1 ≤ n)
unfolding nonzero
nonzero-some none n e = absurd cc
nonzero-some (some p) n e = (ground arith, ground arith)

parse_port-bound :
    (raw : Text) (port : ℕ) → parse_port raw ≡ some port → (1 ≤ port) × (port ≤ 65535)
unfolding parse_port
parse_port-bound raw port h =
    let (read, positive) = nonzero-some (parse_number 65535 (trim raw)) port h in
    (positive, parse_number-bound 65535 (trim raw) port read)

-- The entry stays as it was, with the list: the address or the port is not one.
pub record IsKept (from_str : Text → Option Text) (addr port : Text) (d : Dialogs) (s : SenderApp)
    (r : Dialogs × SenderApp) : Type 0 where
  pub refused : (from_str addr ≡ none) ⊎ (parse_port port ≡ none)
  pub typed : r.0 ≡ d
  pub unchanged : r.1.receivers ≡ s.receivers
  pub same_keys : r.1.receiver_keys ≡ s.receiver_keys

-- The name that is shown for an entry: what was typed, or else the address.
abbrev pub shown : (name addr : Text) → Text
shown [] addr = addr
shown (c ∷ t) addr = c ∷ t

name_or-shown : (name addr : Text) → name_or addr name ≡ shown name addr
unfolding name_or
name_or-shown [] addr = refl
name_or-shown (c ∷ t) addr = refl

default_port : decimal default_airplay_port ≡ codes "7000"
unfolding decimal_onto
default_port = refl

-- What the list gets: the name, the one address, and the port that was typed.
abbrev pub entered_receiver : Dialogs → (ip : Text) (port : ℕ) → DiscoveredReceiver
entered_receiver d ip port = airplay_receiver (record {
  name = codes "manual-airplay-" ++ ip;
  display_name = shown d.airplay_name d.airplay_ip;
  addresses = ip ∷ [];
  port = port;
  device_id = [];
  features = [];
  model = codes "Manual";
})

-- The window of an AirPlay receiver is closed and emptied, the other one is not touched, and the
-- receiver is in the list: the one that was there under the address, or else the one that was entered.
pub record IsAdded (from_str : Text → Option Text) (d : Dialogs) (s : SenderApp) (ip : Text)
    (port : ℕ) (r : Dialogs × SenderApp) : Type 0 where
  pub address : from_str d.airplay_ip ≡ some ip
  pub number : parse_port d.airplay_port ≡ some port
  pub bounds : (1 ≤ port) × (port ≤ 65535)
  pub emptied : r.0 ≡ record d {
    show_add_airplay = false;
    airplay_name = [];
    airplay_ip = [];
    airplay_port = codes "7000";
  }
  pub listed :
      find_receiver (codes "manual-airplay-" ++ ip) r.1.receivers
      ≡ some (
          or_else
            (find_receiver (codes "manual-airplay-" ++ ip) s.receivers)
            (entered_receiver d ip port))
  pub others :
      (k : Text)
      → k ≢ codes "manual-airplay-" ++ ip
      → find_receiver k r.1.receivers ≡ find_receiver k s.receivers

abbrev KeptOrAdded : (from_str : Text → Option Text) (d : Dialogs) (s : SenderApp) → Type 0
KeptOrAdded from_str d s =
    IsKept from_str d.airplay_ip d.airplay_port d s (add_airplay from_str (d, s))
    ⊎ ((ip : Text) × (port : ℕ) × IsAdded from_str d s ip port (add_airplay from_str (d, s)))

KeptOrAdded-by :
    (from_str : Text → Option Text) (d : Dialogs) (s : SenderApp) (o : Option Text) (q : Option ℕ)
    → from_str d.airplay_ip ≡ o
    → parse_port d.airplay_port ≡ q
    → KeptOrAdded from_str d s
unfolding add_airplay airplay_entry submit destination key
KeptOrAdded-by from_str d s none q address number = inl (record {
  refused = inl address;
  typed = rw address refl;
  unchanged = rw address refl;
  same_keys = rw address refl;
})
KeptOrAdded-by from_str d s (some ip) none address number = inl (record {
  refused = inr number;
  typed = rw address (rw number refl);
  unchanged = rw address (rw number refl);
  same_keys = rw address (rw number refl);
})
KeptOrAdded-by from_str d s (some ip) (some port) address number = inr (
  ip,
  port,
  record {
    address = address;
    number = number;
    bounds = parse_port-bound d.airplay_port port number;
    emptied = rw address (
        rw number (
          ap
            (λ t. record d {
              show_add_airplay = false;
              airplay_name = [];
              airplay_ip = [];
              airplay_port = t;
            })
            default_port));
    listed = rw address (
        rw number (
          add_receiver-find (manual_airplay (name_or d.airplay_ip d.airplay_name) (ip, port)) s
          ∙ ap
              (λ n. some (
                or_else (find_receiver (codes "manual-airplay-" ++ ip) s.receivers)
                  (manual_airplay n (ip, port))))
              (name_or-shown d.airplay_name d.airplay_ip)));
    others = λ k other. rw address (
        rw number (
          add_receiver-find_other (manual_airplay (name_or d.airplay_ip d.airplay_name) (ip, port))
            k s other));
  },
)

-- What `Add` does to an AirPlay entry: either the address or the port is refused, and then what was
-- typed and the list stay as they are; or both are read, the port is from 1 to 65535, the window is
-- closed and its boxes are reset, and the list holds under the address the receiver that it held, or
-- if it held none the one that was entered, with that address, that port and the name that was typed
-- or else the address as it was typed; what it holds under other keys stays.
pub add_airplay-IsKept_or_IsAdded :
    (from_str : Text → Option Text) (d : Dialogs) (s : SenderApp)
    → IsKept from_str d.airplay_ip d.airplay_port d s (add_airplay from_str (d, s))
      ⊎ ((ip : Text) × (port : ℕ) × IsAdded from_str d s ip port (add_airplay from_str (d, s)))
add_airplay-IsKept_or_IsAdded from_str d s =
    KeptOrAdded-by from_str d s (from_str d.airplay_ip) (parse_port d.airplay_port) refl refl

-- An address that is entered a second time, with another port say, is not taken over: the window
-- closes as if it had been, and the list keeps the port it had.
pub add_airplay-listed_ignored :
    (from_str : Text → Option Text) (d : Dialogs) (s : SenderApp) (ip : Text) (port : ℕ)
    → from_str d.airplay_ip ≡ some ip
    → parse_port d.airplay_port ≡ some port
    → is_some (find_receiver (codes "manual-airplay-" ++ ip) s.receivers) ≡ true
    → ((add_airplay from_str (d, s)).0.show_add_airplay ≡ false)
      × ((add_airplay from_str (d, s)).1 ≡ s)
unfolding add_airplay airplay_entry submit destination add_receiver key
add_airplay-listed_ignored from_str d s ip port address number listed =
    rw address (rw number (rw listed (refl, refl)))
