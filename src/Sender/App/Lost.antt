-- ===== src/Sender/App/Lost.antt =====
-- A Miracast receiver of the network that is lost (crates/openplay-sender/src/app.rs).
use openplay.Prelude.{some}
use openplay.Prelude.Strings.{is_some, or_else}
use openplay.Prelude.{
  true, refl, [], Text, ◌≢◌, ◌≡◌, ℕ, List, ◌++◌, arith, codes, ◌∷◌, ap, text_eq_iff, ◌∙◌, subst,
}
use openplay.Sender.App.{
  SenderApp, find_receiver, without, add_receiver, remove_receiver, on_discovery,
  MiracastReceiverInfo, miracast_mode, miracast_receiver_found, miracast_receiver_lost,
}
use openplay.Sender.Receivers.{DiscoveredReceiver, infrastructure, miracast_receiver, key}

pub find-without :
    (j k : Text) (m : List (Text × DiscoveredReceiver))
    → j ≢ k
    → find_receiver k (without j m) ≡ find_receiver k m
unfolding find_receiver without
find-without j k [] h = refl
find-without j k ((i, r) ∷ m) h =
    ground (arith, text_eq_iff i j, text_eq_iff i k, find-without j k m)

pub find-append :
    (k : Text) (r : DiscoveredReceiver) (m : List (Text × DiscoveredReceiver))
    → is_some (find_receiver k (m ++ ((k, r) ∷ []))) ≡ true
unfolding find_receiver is_some
find-append k r [] = ground (arith, text_eq_iff k k)
find-append k r ((i, q) ∷ m) = ground (arith, text_eq_iff i k, find-append k r m)

find-append_other :
    (j k : Text) (r : DiscoveredReceiver) (m : List (Text × DiscoveredReceiver))
    → k ≢ j
    → find_receiver k (m ++ ((j, r) ∷ [])) ≡ find_receiver k m
unfolding find_receiver
find-append_other j k r [] h = ground (arith, text_eq_iff j k)
find-append_other j k r ((i, q) ∷ m) h = ground (arith, find-append_other j k r m h)

find-append_end :
    (k : Text) (r : DiscoveredReceiver) (m : List (Text × DiscoveredReceiver))
    → find_receiver k (m ++ ((k, r) ∷ [])) ≡ some (or_else (find_receiver k m) r)
unfolding find_receiver
find-append_end k r [] = ground (arith, text_eq_iff k k)
find-append_end k r ((i, q) ∷ m) = ground (arith, find-append_end k r m)

-- A receiver is found under its key, or the one that was there before.
pub add_receiver-find :
    (r : DiscoveredReceiver) (s : SenderApp)
    → find_receiver (key r) (add_receiver r s).receivers
      ≡ some (or_else (find_receiver (key r) s.receivers) r)
unfolding add_receiver is_some
add_receiver-find r s = ground (arith, find-append_end (key r) r s.receivers)

pub add_receiver-find_other :
    (r : DiscoveredReceiver) (k : Text) (s : SenderApp)
    → k ≢ key r
    → find_receiver k (add_receiver r s).receivers ≡ find_receiver k s.receivers
unfolding add_receiver
add_receiver-find_other r k s h = ground (arith, find-append_other (key r) k r s.receivers h)

pub find-add_receiver :
    (r : DiscoveredReceiver) (s : SenderApp)
    → is_some (find_receiver (key r) (add_receiver r s).receivers) ≡ true
unfolding add_receiver
find-add_receiver r s = ground (arith, find-append (key r) r s.receivers)

find-remove_receiver :
    (j k : Text) (s : SenderApp)
    → j ≢ k
    → find_receiver k (remove_receiver j s).receivers ≡ find_receiver k s.receivers
unfolding remove_receiver
find-remove_receiver j k s h = ground (arith, find-without j k s.receivers h)

-- A Miracast receiver of the network is listed under its address, and its loss is reported under its
-- service name: unless that is the key, the receiver stays in the list after it is lost.
pub lost_infrastructure_stays :
    (info : MiracastReceiverInfo) (addr : Text) (port : ℕ) (s : SenderApp)
    → miracast_mode info ≡ infrastructure addr port
    → info.name ≢ codes "miracast-" ++ addr
    → is_some (
        find_receiver
          (codes "miracast-" ++ addr)
          (on_discovery
            (miracast_receiver_lost info.name)
            (on_discovery (miracast_receiver_found info) s)).receivers)
      ≡ true
unfolding on_discovery key
lost_infrastructure_stays info addr port s mode other =
    ap is_some (find-remove_receiver info.name (codes "miracast-" ++ addr) _ other)
    ∙ subst
        (λ m.
          is_some (
            find_receiver (key (miracast_receiver info.display_name m))
              (add_receiver (miracast_receiver info.display_name (miracast_mode info)) s).receivers)
          ≡ true)
        mode (find-add_receiver (miracast_receiver info.display_name (miracast_mode info)) s)
