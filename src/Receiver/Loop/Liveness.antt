-- ===== src/Receiver/Loop/Liveness.antt =====
-- What the liveness tick leaves behind.
use openplay.Prelude.{All, Bool, List, Text, [], arith, none, some, true, ℕ, ◌∷◌, ◌≡◌, ◌≢◌}
use openplay.Signaling.{ConnectionHandle}
use openplay.Receiver.Loop.{
  SessionLoop, drop_dead_connections, Bool, Text, Pending, pending_consent, Active,
}
use openplay.Prelude.Maps.{retain, lookup}

-- Every handle that the loop still holds is connected.
pub record IsLive (alive : ConnectionHandle → Bool) (s : SessionLoop) : Type 0 where
  pub prompts : All (λ e. alive e.1.reply ≡ true) s.pending
  pub session : (a : Active) → s.active ≡ some a → alive a.reply ≡ true

-- The prompt on the screen, if there is one, has a request behind it.
abbrev pub IsAnswerable : SessionLoop → Type 0
IsAnswerable s =
    (name : Text) (c : ℕ) → s.status ≡ pending_consent name c → lookup c s.pending ≢ none

All-retain_alive :
    (alive : ConnectionHandle → Bool) (m : List (ℕ × Pending))
    → All (λ e. alive e.1.reply ≡ true) (retain (λ c p. alive p.reply) m)
unfolding retain
All-retain_alive alive [] = tt
All-retain_alive alive ((c, p) ∷ m) = ground (arith, All-retain_alive alive m)

-- After a liveness tick every request and session left is that of a connected sender, and a
-- prompt on the screen can be answered.
pub drop_dead_connections-IsLive :
    (s : SessionLoop) (alive : ConnectionHandle → Bool)
    → let t = (drop_dead_connections s alive).0 in IsLive alive t × IsAnswerable t
unfolding drop_dead_connections
drop_dead_connections-IsLive s alive = (
  record {
    prompts = ground (arith, All-retain_alive alive s.pending);
    session = λ a e. ground arith;
  },
  λ name c e f. ground arith,
)
