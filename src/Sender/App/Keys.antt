-- ===== src/Sender/App/Keys.antt =====
-- The keys of the sender's list of receivers (crates/openplay-sender/src/app.rs).
use openplay.Prelude.{inl, inr, if◌then◌else◌}
use openplay.Prelude.Strings.{is_some}
use openplay.Prelude.{
  none, some, true, false, refl, [], Text, List, ◌≡◌, Option, All, ◌++◌, ◌∷◌, arith, ap, ◌∙◌,
  Bool-cases, text_eq, Bool, text_eq_iff,
}
use openplay.Sender.App.{find_receiver, without, other_keys, deselect}
use openplay.Sender.App.Lost.{find-without}
use openplay.Sender.Receivers.{DiscoveredReceiver, key}

abbrev pub keys_of : List (Text × DiscoveredReceiver) → List Text
keys_of [] = []
keys_of ((k, r) ∷ m) = k ∷ keys_of m

-- Whether a selected key is one of the map's.
abbrev pub IsListed : Option Text → List (Text × DiscoveredReceiver) → Type 0
IsListed none m = Unit {0}
IsListed (some k) m = is_some (find_receiver k m) ≡ true

pub keys_of-append :
    (m : List (Text × DiscoveredReceiver)) (k : Text) (r : DiscoveredReceiver)
    → keys_of (m ++ ((k, r) ∷ [])) ≡ keys_of m ++ (k ∷ [])
keys_of-append [] k r = refl
keys_of-append ((j, q) ∷ m) k r = ap (λ t. j ∷ t) (keys_of-append m k r)

pub keys_of-without :
    (k : Text) (m : List (Text × DiscoveredReceiver))
    → keys_of (without k m) ≡ other_keys k (keys_of m)
unfolding without other_keys
keys_of-without k [] = refl
keys_of-without k ((j, r) ∷ m) = ground (arith, keys_of-without k m)

All-if :
    (b : Bool) (m n : List (Text × DiscoveredReceiver))
    → All (λ e. e.0 ≡ key e.1) m
    → All (λ e. e.0 ≡ key e.1) n
    → All (λ e. e.0 ≡ key e.1) (if b then m else n)
All-if true m n h k = h
All-if false m n h k = k

pub All-without :
    (k : Text) (m : List (Text × DiscoveredReceiver))
    → All (λ e. e.0 ≡ key e.1) m
    → All (λ e. e.0 ≡ key e.1) (without k m)
unfolding without
All-without k [] h = tt
All-without k ((j, r) ∷ m) h =
    All-if (text_eq j k) (without k m) ((j, r) ∷ without k m) (All-without k m h.1)
      (h.0, All-without k m h.1)

find-append_some :
    (j : Text) (m : List (Text × DiscoveredReceiver)) (k : Text) (r : DiscoveredReceiver)
    → is_some (find_receiver j m) ≡ true
    → is_some (find_receiver j (m ++ ((k, r) ∷ []))) ≡ true
unfolding find_receiver is_some
find-append_some j [] k r h = absurd cc
find-append_some j ((i, q) ∷ m) k r h = ground (arith, find-append_some j m k r)

pub IsListed-append :
    (o : Option Text) (m : List (Text × DiscoveredReceiver)) (k : Text) (r : DiscoveredReceiver)
    → IsListed o m
    → IsListed o (m ++ ((k, r) ∷ []))
IsListed-append none m k r h = tt
IsListed-append (some j) m k r h = find-append_some j m k r h

pub IsListed-without :
    (k : Text) (o : Option Text) (m : List (Text × DiscoveredReceiver))
    → IsListed o m
    → IsListed (deselect k o) (without k m)
unfolding deselect
IsListed-without k none m h = tt
IsListed-without k (some j) m h = elim (Bool-cases (text_eq j k)) [
  | inl e ↦ rw e tt
  | inr e ↦ rw e (ap is_some (find-without k j m (λ same. ground (arith, text_eq_iff j k))) ∙ h)
]
