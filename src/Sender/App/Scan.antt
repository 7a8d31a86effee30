-- ===== src/Sender/App/Scan.antt =====
-- The scan for Wi-Fi Direct peers, as the window asks for it (crates/openplay-sender/src/app.rs).
use openplay.Prelude.{
  Bool, List, true, false, [], ◌∷◌, ◌≡◌, refl, Option, none, some, Text, ◌++◌, if◌then◌else◌, ◌∙◌,
  arith, ap, codes,
}
use openplay.Sender.App.{
  SenderApp, Effect, discovery_paused, discovery_resumed, cast_started, stop_signalled, AppEvent,
  app_step, end_cast, on_status, is_done, spawn_or_fail, fail_cast, pause_unless, start_cast,
  obstacle, start_selected, selected_receiver, stop_cast, add_receiver, remove_receiver,
  on_discovery, select, discovered, entered, status_message, row_clicked, start_clicked,
  stop_clicked, DiscoveryEvent, receiver_found, airplay_receiver_found, miracast_receiver_found,
  receiver_lost, airplay_receiver_lost, miracast_receiver_lost,
}
use openplay.Sender.Receivers.{DiscoveredReceiver, is_wifi_direct}

-- Whether the scan is paused after what was asked for.
abbrev pub scan_after : List Effect → (paused : Bool) → Bool
scan_after [] paused = paused
scan_after (discovery_paused ∷ es) paused = scan_after es true
scan_after (discovery_resumed ∷ es) paused = scan_after es false
scan_after (cast_started r ∷ es) paused = scan_after es paused
scan_after (stop_signalled ∷ es) paused = scan_after es paused

scan_after-append :
    (es fs : List Effect) (b : Bool) → scan_after (es ++ fs) b ≡ scan_after fs (scan_after es b)
scan_after-append [] fs b = refl
scan_after-append (discovery_paused ∷ es) fs b = scan_after-append es fs true
scan_after-append (discovery_resumed ∷ es) fs b = scan_after-append es fs false
scan_after-append (cast_started r ∷ es) fs b = scan_after-append es fs b
scan_after-append (stop_signalled ∷ es) fs b = scan_after-append es fs b

-- The flag is what was asked for.
abbrev Follows : Bool → SenderApp × List Effect → Type 0
Follows paused (s, es) = scan_after es paused ≡ s.p2p_discovery_paused

resumed-Follows : (b : Bool) → scan_after (if b then discovery_resumed ∷ [] else []) b ≡ false
resumed-Follows true = refl
resumed-Follows false = refl

end_cast-Follows :
    (reason : Text) (s : SenderApp)
    → Follows s.p2p_discovery_paused (end_cast (record s { status = reason }))
unfolding end_cast
end_cast-Follows reason s = resumed-Follows s.p2p_discovery_paused

status-Follows :
    (done : Bool) (msg : Text) (s : SenderApp)
    → Follows s.p2p_discovery_paused
        (if done then end_cast (record s { status = msg }) else (record s { status = msg }, []))
status-Follows true msg s = end_cast-Follows msg s
status-Follows false msg s = refl

spawn_or_fail-Follows :
    (r : DiscoveredReceiver) (reason : Option Text) (s : SenderApp)
    → Follows s.p2p_discovery_paused (spawn_or_fail r reason s)
unfolding spawn_or_fail fail_cast
spawn_or_fail-Follows r none s = refl
spawn_or_fail-Follows r (some reason) s = end_cast-Follows reason s

paused-Follows : (b : Bool) → scan_after (if b then [] else discovery_paused ∷ []) b ≡ true
paused-Follows true = refl
paused-Follows false = refl

pause_unless-Follows :
    (pass : Bool) (s : SenderApp) → Follows s.p2p_discovery_paused (pause_unless pass s)
unfolding pause_unless
pause_unless-Follows true s = refl
pause_unless-Follows false s = paused-Follows s.p2p_discovery_paused

start_cast-Follows :
    (r : DiscoveredReceiver) (s : SenderApp) → Follows s.p2p_discovery_paused (start_cast r s)
unfolding start_cast
start_cast-Follows r s =
    let paused = pause_unless (is_wifi_direct r) s in
    let started = spawn_or_fail r (obstacle r) (record paused.0 {
      stoppable = true;
      is_casting = true;
      status = codes "Starting capture...";
    }) in
    scan_after-append paused.1 started.1 s.p2p_discovery_paused
    ∙ ap (scan_after started.1) (pause_unless-Follows (is_wifi_direct r) s)
    ∙ spawn_or_fail-Follows r (obstacle r) _

start_unless-Follows :
    (casting : Bool) (r : DiscoveredReceiver) (s : SenderApp)
    → Follows s.p2p_discovery_paused (if casting then (s, []) else start_cast r s)
start_unless-Follows true r s = refl
start_unless-Follows false r s = start_cast-Follows r s

start_selected-Follows :
    (o : Option DiscoveredReceiver) (s : SenderApp)
    → Follows s.p2p_discovery_paused (start_selected o s)
unfolding start_selected
start_selected-Follows none s = refl
start_selected-Follows (some r) s = start_unless-Follows s.is_casting r s

signalled-Follows :
    (b paused : Bool) → scan_after (if b then stop_signalled ∷ [] else []) paused ≡ paused
signalled-Follows true paused = refl
signalled-Follows false paused = refl

stop_clicked-Follows :
    (casting : Bool) (s : SenderApp)
    → Follows s.p2p_discovery_paused (if casting then stop_cast s else (s, []))
unfolding stop_cast
stop_clicked-Follows true s = signalled-Follows s.stoppable s.p2p_discovery_paused
stop_clicked-Follows false s = refl

add_receiver-flag :
    (r : DiscoveredReceiver) (s : SenderApp)
    → s.p2p_discovery_paused ≡ (add_receiver r s).p2p_discovery_paused
unfolding add_receiver
add_receiver-flag r s = ground arith

remove_receiver-flag :
    (k : Text) (s : SenderApp) → s.p2p_discovery_paused ≡ (remove_receiver k s).p2p_discovery_paused
unfolding remove_receiver
remove_receiver-flag k s = ground arith

on_discovery-flag :
    (e : DiscoveryEvent) (s : SenderApp)
    → s.p2p_discovery_paused ≡ (on_discovery e s).p2p_discovery_paused
unfolding on_discovery
on_discovery-flag (receiver_found info) s = add_receiver-flag _ s
on_discovery-flag (airplay_receiver_found info) s = add_receiver-flag _ s
on_discovery-flag (miracast_receiver_found info) s = add_receiver-flag _ s
on_discovery-flag (receiver_lost name) s = remove_receiver-flag name s
on_discovery-flag (airplay_receiver_lost name) s = remove_receiver-flag name s
on_discovery-flag (miracast_receiver_lost name) s = remove_receiver-flag name s

select-flag :
    (k : Text) (s : SenderApp) → s.p2p_discovery_paused ≡ (select k s).p2p_discovery_paused
unfolding select
select-flag k s = ground arith

pub app_step-Follows :
    (e : AppEvent) (s : SenderApp)
    → scan_after (app_step e s).1 s.p2p_discovery_paused ≡ (app_step e s).0.p2p_discovery_paused
unfolding app_step on_status
app_step-Follows (discovered e) s = on_discovery-flag e s
app_step-Follows (entered r) s = add_receiver-flag r s
app_step-Follows (status_message msg) s = status-Follows (is_done msg) msg s
app_step-Follows (row_clicked k) s = select-flag k s
app_step-Follows start_clicked s = start_selected-Follows (selected_receiver s) s
app_step-Follows stop_clicked s = stop_clicked-Follows s.is_casting s
