-- ===== src/Airplay/ControlChannel/Nonces.antt =====
-- crates/openplay-airplay/src/control_channel.rs: the nonces of one direction.
use openplay.Prelude.{refl}
use mathlib.Core.List.{append-nil, append_assoc}
use openplay.Prelude.{zero, suc, some}
use openplay.Prelude.{
  ok, [], List, ℕ, ◌<◌, ◌≡◌, ◌^◌, ◌+◌, length, arith, ◌≢◌, ap, drop, ◌∷◌, ◌++◌, All, ◌≤◌, sym, ◌∙◌,
}
use openplay.Prelude.Endian.{to_le_bytes-injective, to_le_bytes}
use openplay.Airplay.ControlChannel.{Aead, ControlChannel, nonce_for, send}
use openplay.Airplay.ControlChannel.Frames.{send_all, send-IsSent, continue_on-ok}

nonce_for-injective : (m n : ℕ) → m < 2 ^ 64 → n < 2 ^ 64 → nonce_for m ≡ nonce_for n → m ≡ n
unfolding nonce_for
nonce_for-injective m n hm hn e =
    to_le_bytes-injective 8 m n (omega arith) (omega arith) (ap (drop 4) e)

-- Frames that were written one after the other, by the nonces that they were sealed with: each is
-- its length, then what the cipher made of it under the key and its nonce.
pub data IsSealed (c : Aead) (key : List ℕ)
    : (nonces messages writes : List (List ℕ)) → Type 0 where
  no_frame : IsSealed c key [] [] []
  frame :
      (nonce message sealed : List ℕ) (nonces messages writes : List (List ℕ))
      → c.encrypt key nonce (to_le_bytes 2 (length message)) message ≡ some sealed
      → IsSealed c key nonces messages writes
      → IsSealed c key
          (nonce ∷ nonces)
          (message ∷ messages)
          (to_le_bytes 2 (length message) ∷ sealed ∷ writes)

-- No two of them are the same.
abbrev pub AreDistinct : List (List ℕ) → Type 0
AreDistinct [] = Unit
AreDistinct (n ∷ ns) = All (λ m. m ≢ n) ns × AreDistinct ns

-- The nonces of the counters from one on.
abbrev nonces_from : (counter count : ℕ) → List (List ℕ)
nonces_from counter zero = []
nonces_from counter (suc count) = nonce_for counter ∷ nonces_from (counter + 1) count

nonces_from-above :
    (low counter count : ℕ)
    → low < counter
    → counter + count ≤ 2 ^ 64
    → All (λ m. m ≢ nonce_for low) (nonces_from counter count)
nonces_from-above low counter zero h small = tt
nonces_from-above low counter (suc count) h small = (
  λ same. omega (arith, nonce_for-injective counter low (omega arith) (omega arith) same),
  nonces_from-above low (counter + 1) count (omega arith) (omega arith),
)

nonces_from-AreDistinct :
    (counter count : ℕ) → counter + count ≤ 2 ^ 64 → AreDistinct (nonces_from counter count)
nonces_from-AreDistinct counter zero small = tt
nonces_from-AreDistinct counter (suc count) small = (
  nonces_from-above counter (counter + 1) count (omega arith) (omega arith),
  nonces_from-AreDistinct (counter + 1) count (omega arith),
)

-- What a run of `send` wrote, and under which nonces.
record Sealed (c : Aead) (key : List ℕ) (nonces messages : List (List ℕ)) (a a' : ControlChannel)
    : Type 0 where
  writes : List (List ℕ)
  sealed : IsSealed c key nonces messages writes
  sent : a'.stream.sent ≡ a.stream.sent ++ writes

module _ (c : Aead) (key : List ℕ) where
  send_all-Sealed :
      (messages : List (List ℕ)) (start : ℕ) (a : ControlChannel) {a' : ControlChannel}
      {u : Unit {0}}
      → a.write_cipher ≡ key
      → a.write_counter ≡ start
      → send_all c messages a ≡ (a', ok u)
      → start + length messages < 2 ^ 64
      → Sealed c key (nonces_from start (length messages)) messages a a'
  unfolding send_all
  send_all-Sealed [] start a keyed counted h small = record {
    writes = [];
    sealed = no_frame;
    sent = ap (λ r. r.0.stream.sent) (sym h) ∙ sym (append-nil a.stream.sent);
  }
  send_all-Sealed (m ∷ ms) start a keyed counted h small =
      let (a1, done, e, h1) = continue_on-ok (send c m a) (λ _. send_all c ms) h in
      let first = send-IsSent c m a e in
      let rest =
        send_all-Sealed ms (start + 1) a1 (first.cipher ∙ keyed)
          (omega (arith, first.counter, counted)) h1 (omega arith) in
      record {
        writes = to_le_bytes 2 (length m) ∷ first.sealed ∷ rest.writes;
        sealed =
            frame (nonce_for start) m first.sealed (nonces_from (start + 1) (length ms)) ms
              rest.writes
              ((λ i.
                  c.encrypt (sym keyed i) (nonce_for (sym counted i)) (to_le_bytes 2 (length m)) m)
                ∙ first.encrypted)
              rest.sealed;
        sent =
            rest.sent
            ∙ ap (λ t. t ++ rest.writes) first.sent
            ∙ append_assoc a.stream.sent (to_le_bytes 2 (length m) ∷ first.sealed ∷ []) rest.writes;
      }

-- As long as the counter does not come round, the frames of any messages that are sent are written
-- after what was written before, each of them is sealed under the channel's key, and no two of the
-- nonces that they are sealed with are the same.
pub send_all-fresh_nonce :
    (c : Aead) (messages : List (List ℕ)) (a : ControlChannel) {a' : ControlChannel} {u : Unit {0}}
    → send_all c messages a ≡ (a', ok u)
    → a.write_counter + length messages < 2 ^ 64
    → (nonces : List (List ℕ)) × (writes : List (List ℕ)) × (a'.stream.sent
        ≡ a.stream.sent ++ writes)
      × IsSealed c a.write_cipher nonces messages writes
      × AreDistinct nonces
send_all-fresh_nonce c messages a h small =
    let r = send_all-Sealed c a.write_cipher messages a.write_counter a refl refl h small in
    (
      nonces_from a.write_counter (length messages),
      r.writes,
      r.sent,
      r.sealed,
      nonces_from-AreDistinct a.write_counter (length messages) (omega arith),
    )
