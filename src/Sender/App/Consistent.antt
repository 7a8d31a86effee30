-- ===== src/Sender/App/Consistent.antt =====
-- The state of the window stays consistent (crates/openplay-sender/src/app.rs).
use openplay.Prelude.{inl, inr, if◌then◌else◌}
use openplay.Prelude.Strings.{is_some}
use openplay.Prelude.{
  none, some, true, false, refl, [], Text, List, ◌≡◌, Option, All, ◌++◌, ◌∷◌, ap, ◌∙◌, Bool-cases,
  Bool, sym, subst, All-append, codes,
}
use openplay.Sender.App.{
  SenderApp, new, find_receiver, other_keys, add_receiver, remove_receiver, on_discovery,
  DiscoveryEvent, receiver_found, airplay_receiver_found, miracast_receiver_found, receiver_lost,
  airplay_receiver_lost, miracast_receiver_lost, on_status, end_cast, start_cast, start_selected,
  selected_receiver, stop_cast, select, AppEvent, discovered, entered, status_message, row_clicked,
  start_clicked, stop_clicked, app_step, pause_unless, spawn_or_fail, fail_cast, obstacle, is_done,
}
use openplay.Sender.App.Scan.{scan_after, app_step-Follows}
use openplay.Sender.Receivers.{DiscoveredReceiver, key, is_wifi_direct}
use openplay.Sender.App.Keys.{
  keys_of, IsListed, keys_of-append, keys_of-without, All-without, IsListed-append,
  IsListed-without,
}

-- The keys stand in the list as in the map, each receiver under its own, once; what is selected is
-- there; there is a stop handle exactly while something is cast, and the scan is paused only then.
pub record IsConsistent (s : SenderApp) : Type 0 where
  pub listed : s.receiver_keys ≡ keys_of s.receivers
  pub keyed : All (λ e. e.0 ≡ key e.1) s.receivers
  pub selected : IsListed s.selected_key s.receivers
  pub handled : s.stoppable ≡ s.is_casting
  pub scanning : s.is_casting ≡ false → s.p2p_discovery_paused ≡ false

new-IsConsistent : IsConsistent new
new-IsConsistent = record {
  listed = refl;
  keyed = tt;
  selected = tt;
  handled = refl;
  scanning = λ h. refl;
}

add_receiver-IsConsistent :
    (r : DiscoveredReceiver) (s : SenderApp) → IsConsistent s → IsConsistent (add_receiver r s)
unfolding add_receiver
add_receiver-IsConsistent r s c = elim (Bool-cases (is_some (find_receiver (key r) s.receivers))) [
  | inl e ↦ rw e c
  | inr e ↦ rw e (record {
    listed = ap (λ ks. ks ++ (key r ∷ [])) c.listed ∙ sym (keys_of-append s.receivers (key r) r);
    keyed = All-append (λ e. e.0 ≡ key e.1) s.receivers ((key r, r) ∷ []) c.keyed (refl, tt);
    selected = IsListed-append s.selected_key s.receivers (key r) r c.selected;
    handled = c.handled;
    scanning = c.scanning;
  })
]

remove_receiver-IsConsistent :
    (k : Text) (s : SenderApp) → IsConsistent s → IsConsistent (remove_receiver k s)
unfolding remove_receiver
remove_receiver-IsConsistent k s c = elim (Bool-cases (is_some (find_receiver k s.receivers))) [
  | inl e ↦ rw e (record {
    listed = ap (other_keys k) c.listed ∙ sym (keys_of-without k s.receivers);
    keyed = All-without k s.receivers c.keyed;
    selected = IsListed-without k s.selected_key s.receivers c.selected;
    handled = c.handled;
    scanning = c.scanning;
  })
  | inr e ↦ rw e c
]

on_discovery-IsConsistent :
    (e : DiscoveryEvent) (s : SenderApp) → IsConsistent s → IsConsistent (on_discovery e s)
unfolding on_discovery
on_discovery-IsConsistent (receiver_found info) s c = add_receiver-IsConsistent _ s c
on_discovery-IsConsistent (airplay_receiver_found info) s c = add_receiver-IsConsistent _ s c
on_discovery-IsConsistent (miracast_receiver_found info) s c = add_receiver-IsConsistent _ s c
on_discovery-IsConsistent (receiver_lost name) s c = remove_receiver-IsConsistent name s c
on_discovery-IsConsistent (airplay_receiver_lost name) s c = remove_receiver-IsConsistent name s c
on_discovery-IsConsistent (miracast_receiver_lost name) s c = remove_receiver-IsConsistent name s c

-- The list is not touched.
abbrev Keeps : (s t : SenderApp) → Type 0
Keeps s t =
    (t.receivers ≡ s.receivers)
    × (t.receiver_keys ≡ s.receiver_keys)
    × (t.selected_key ≡ s.selected_key)

with_cast :
    (s t : SenderApp)
    → IsConsistent s
    → Keeps s t
    → t.stoppable ≡ t.is_casting
    → (t.is_casting ≡ false → t.p2p_discovery_paused ≡ false)
    → IsConsistent t
with_cast s t c same handled scanning = record {
  listed = same.1 ∙ c.listed ∙ ap keys_of (sym same.0);
  keyed = subst (All (λ e. e.0 ≡ key e.1)) (sym same.0) c.keyed;
  selected =
      subst (λ o. IsListed o t.receivers) (sym same.2)
        (subst (IsListed s.selected_key) (sym same.0) c.selected);
  handled = handled;
  scanning = scanning;
}

end_cast-IsConsistent :
    (reason : Text) (s : SenderApp)
    → IsConsistent s
    → IsConsistent (end_cast (record s { status = reason })).0
unfolding end_cast
end_cast-IsConsistent reason s c = with_cast s _ c (refl, refl, refl) refl (λ h. refl)

on_status-IsConsistent :
    (msg : Text) (s : SenderApp) → IsConsistent s → IsConsistent (on_status msg s).0
unfolding on_status
on_status-IsConsistent msg s c = elim (Bool-cases (is_done msg)) [
  | inl e ↦ rw e (end_cast-IsConsistent msg s c)
  | inr e ↦ rw e (with_cast s _ c (refl, refl, refl) c.handled c.scanning)
]

spawn_or_fail-IsConsistent :
    (r : DiscoveredReceiver) (reason : Option Text) (s : SenderApp)
    → IsConsistent s
    → IsConsistent (spawn_or_fail r reason s).0
unfolding spawn_or_fail fail_cast
spawn_or_fail-IsConsistent r none s c = c
spawn_or_fail-IsConsistent r (some reason) s c = end_cast-IsConsistent reason s c

casting-IsConsistent :
    (pass : Bool) (s : SenderApp)
    → IsConsistent s
    → IsConsistent (record (pause_unless pass s).0 {
      stoppable = true;
      is_casting = true;
      status = codes "Starting capture...";
    })
unfolding pause_unless
casting-IsConsistent true s c = with_cast s _ c (refl, refl, refl) refl (λ h. absurd cc)
casting-IsConsistent false s c = with_cast s _ c (refl, refl, refl) refl (λ h. absurd cc)

start_cast-IsConsistent :
    (r : DiscoveredReceiver) (s : SenderApp) → IsConsistent s → IsConsistent (start_cast r s).0
unfolding start_cast
start_cast-IsConsistent r s c =
    spawn_or_fail-IsConsistent r (obstacle r) _ (casting-IsConsistent (is_wifi_direct r) s c)

start_unless-IsConsistent :
    (casting : Bool) (r : DiscoveredReceiver) (s : SenderApp)
    → IsConsistent s
    → IsConsistent (if casting then (s, []) else start_cast r s).0
start_unless-IsConsistent true r s c = c
start_unless-IsConsistent false r s c = start_cast-IsConsistent r s c

start_selected-IsConsistent :
    (o : Option DiscoveredReceiver) (s : SenderApp)
    → IsConsistent s
    → IsConsistent (start_selected o s).0
unfolding start_selected
start_selected-IsConsistent none s c = c
start_selected-IsConsistent (some r) s c = start_unless-IsConsistent s.is_casting r s c

select-IsConsistent : (k : Text) (s : SenderApp) → IsConsistent s → IsConsistent (select k s)
unfolding select
select-IsConsistent k s c = elim (Bool-cases (is_some (find_receiver k s.receivers))) [
  | inl e ↦ rw e (record {
    listed = c.listed;
    keyed = c.keyed;
    selected = e;
    handled = c.handled;
    scanning = c.scanning;
  })
  | inr e ↦ rw e c
]

stop_clicked-IsConsistent :
    (casting : Bool) (s : SenderApp)
    → IsConsistent s
    → IsConsistent (if casting then stop_cast s else (s, [])).0
unfolding stop_cast
stop_clicked-IsConsistent true s c = with_cast s _ c (refl, refl, refl) c.handled c.scanning
stop_clicked-IsConsistent false s c = c

step-IsConsistent : (e : AppEvent) (s : SenderApp) → IsConsistent s → IsConsistent (app_step e s).0
unfolding app_step
step-IsConsistent (discovered e) s c = on_discovery-IsConsistent e s c
step-IsConsistent (entered r) s c = add_receiver-IsConsistent r s c
step-IsConsistent (status_message msg) s c = on_status-IsConsistent msg s c
step-IsConsistent (row_clicked k) s c = select-IsConsistent k s c
step-IsConsistent start_clicked s c = start_selected-IsConsistent (selected_receiver s) s c
step-IsConsistent stop_clicked s c = stop_clicked-IsConsistent s.is_casting s c

-- The window as it stands after some events.
abbrev pub app_run : List AppEvent → SenderApp → SenderApp
app_run [] s = s
app_run (e ∷ es) s = app_run es (app_step e s).0

run-IsConsistent :
    (es : List AppEvent) (s : SenderApp) → IsConsistent s → IsConsistent (app_run es s)
run-IsConsistent [] s c = c
run-IsConsistent (e ∷ es) s c = run-IsConsistent es (app_step e s).0 (step-IsConsistent e s c)

-- Whether the scan is paused after what the window asked for on the way.
abbrev pub app_scan : List AppEvent → SenderApp → (paused : Bool) → Bool
app_scan [] s paused = paused
app_scan (e ∷ es) s paused = app_scan es (app_step e s).0 (scan_after (app_step e s).1 paused)

app_scan-flag :
    (es : List AppEvent) (s : SenderApp) (paused : Bool)
    → paused ≡ s.p2p_discovery_paused
    → app_scan es s paused ≡ (app_run es s).p2p_discovery_paused
app_scan-flag [] s paused h = h
app_scan-flag (e ∷ es) s paused h =
    app_scan-flag es (app_step e s).0 (scan_after (app_step e s).1 paused)
      (ap (scan_after (app_step e s).1) h ∙ app_step-Follows e s)

-- Whatever happens to the window from its start, receivers found, entered or lost, messages of a
-- cast, and clicks, in any order: the keys of the list are those of the map, each receiver stands
-- under its own key, the receiver that is selected is in the map, there is a stop handle exactly
-- while something is cast, and the scan for Wi-Fi Direct peers is paused only then: the flag says
-- so, and it is what the window has asked the scan for, one pause or resumption after the other.
pub app_step-IsConsistent :
    (es : List AppEvent)
    → IsConsistent (app_run es new)
      × (app_scan es new false ≡ (app_run es new).p2p_discovery_paused)
app_step-IsConsistent es =
    (run-IsConsistent es new new-IsConsistent, app_scan-flag es new false refl)
