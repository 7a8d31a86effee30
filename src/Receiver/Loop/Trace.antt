-- ===== src/Receiver/Loop/Trace.antt =====
-- Runs of the session loop.
use openplay.Prelude.Maps.{lookup}
use openplay.Receiver.Loop.Exclusive.{IsExclusive, step-IsExclusive}
use openplay.Receiver.Loop.Prompt.{IsTruthful, step-IsTruthful}
use openplay.Receiver.Loop.{
  SessionLoop, idle_status, step, handle_decision, LoopEvent, Active, pending_consent, decision,
  lookup,
}
use openplay.Prelude.{List, Text, [], arith, inl, inr, none, some, true, ℕ, ◌∷◌, ◌≡◌, Option-cases}

-- The loop after a list of events, the latest first, from the state that `start` makes.
unfoldable pub after : SessionLoop → List LoopEvent → SessionLoop
after s [] = s
after s (e ∷ past) = (step (after s past) e).0

-- A start of the receiver: no connection, and a status that asks nothing.
pub record IsStart (s : SessionLoop) : Type 0 where
  pub no_prompt : s.pending ≡ []
  pub no_session : s.active ≡ none
  pub idle : s.status ≡ idle_status s.undiscoverable

pub after-IsExclusive :
    (s : SessionLoop) (past : List LoopEvent) → IsStart s → IsExclusive (after s past)
unfolding after
after-IsExclusive s [] b = ground arith
after-IsExclusive s (e ∷ past) b = step-IsExclusive (after s past) e (after-IsExclusive s past b)

pub after-IsTruthful :
    (s : SessionLoop) (past : List LoopEvent) → IsStart s → IsTruthful (after s past)
unfolding after idle_status
after-IsTruthful s [] b = λ n c p e l. ground arith
after-IsTruthful s (e ∷ past) b =
    step-IsTruthful (after s past) e (after-IsExclusive s past b).single (after-IsTruthful s past b)

-- After any history, if the prompt on the screen names a sender and a connection, and the user
-- allows that connection, then the session that starts, if one does, is of that connection and
-- of the sender that the prompt names.
pub decide_names_sender :
    (s : SessionLoop) (past : List LoopEvent) (name : Text) (c : ℕ) (a : Active)
    → IsStart s
    → (after s past).status ≡ pending_consent name c
    → (after s past).active ≡ none
    → (after s (decision (record { connection = c; accept = true }) ∷ past)).active ≡ some a
    → (a.connection ≡ c) × (a.display_name ≡ name) × (a.media ≡ none)
unfolding after step handle_decision
decide_names_sender s past name c a b shown none_active e =
    elim (Option-cases (lookup c (after s past).pending)) [
      | inl miss ↦ ground arith
      | inr (p, hit) ↦ ground (arith, after-IsTruthful s past b name c p shown hit)
    ]
