-- ===== src/Protocol/StateMachine.antt =====
-- crates/openplay-protocol/src/state.rs: what the two state machines share, the error of a transition
-- that does not exist.
pub mod Sender
pub mod Receiver
use openplay.Prelude.{
  All, Bool, List, Option, Result, Text, [], ap, arith, codes, drop, err, false, if◌then◌else◌, inl,
  inr, leb, length, ltb, none, not, ok, refl, some, suc, sym, take, true, zero, ℕ, ◌%◌, ◌&&◌, ◌*◌,
  ◌++◌, ◌+◌, ◌-◌, ◌/◌, ◌<◌, ◌==◌, ◌>>=◌, ◌>>◌, ◌^◌, ◌||◌, ◌↔◌, ◌∙◌, ◌∷◌, ◌≡◌, ◌≢◌, ◌≤◌, ◌⊎◌,
}

-- `StateError::InvalidTransition`, with the `Debug` names in place of the values.
pub data StateError : Type 0 where
  invalid_transition : (origin target trigger : Text) → StateError
