-- ===== src/Sender/Connect.antt =====
-- crates/openplay-sender/src/casting.rs: how the sender finds the address at which the receiver with
-- the advertised certificate answers. What becomes of dialling an address is a function `dial`; the
-- certificate that a host presents is verified in the handshake.
pub mod Reaches
mod Examples
use openplay.Prelude.Strings.{or_else}
use openplay.Prelude.{none, some, ok, err, [], List, Option, Text, Result, ◌++◌, codes, ℕ, ◌∷◌}
use openplay.Crypto.{verify_server_cert, client_config_pinned}

-- A host's answer: its certificate, and what becomes of the connection once that is verified.
pub data Dialled : Type 0 where
  bad_url : Text → Dialled
  no_answer : Text → Dialled
  presents : (der : List ℕ) (rest : Result (Unit {0}) Text) → Dialled
  timed_out : Dialled

pub record OpenPlayTarget : Type 0 where
  pub addrs : List Text
  pub fingerprint : Text
  pub display_name : Text

-- How an attempt ended. An error is what the client reports of it.
unfoldable pub verified :
    Result (Unit {0}) Text → (rest : Result (Unit {0}) Text) → Result (Unit {0}) Text
verified (err e) rest = err e
verified (ok u) rest = rest

-- `attempt` of one address.
unfoldable pub attempt :
    (sha256 : List ℕ → List ℕ) (expected : Text) → Dialled → Result (Unit {0}) Text
unfolding verified verify_server_cert
attempt sha256 expected (bad_url e) = err e
attempt sha256 expected (no_answer e) = err e
attempt sha256 expected (presents der rest) = verified (verify_server_cert sha256 expected der) rest
attempt sha256 expected timed_out = err (codes "timed out")

unfoldable pub failure_text : (last_error : Option Text) → Text
failure_text last_error =
    codes "Could not reach the receiver on any advertised address ("
    ++ or_else last_error (codes "no addresses tried")
    ++ codes ")"

-- The address that answered, or what remains to be tried after a failure.
unfoldable pub try_next :
    Result (Unit {0}) Text
    → (addr : Text) (later : Option Text → Result Text Text) → Result Text Text
try_next (ok u) addr later = ok addr
try_next (err e) addr later = later (some (addr ++ codes ": " ++ e))

module _ (sha256 : List ℕ → List ℕ) (dial : Text → Dialled) where
  -- The loop over the addresses.
  unfoldable pub try_addresses :
      (expected : Text) → List Text → (last_error : Option Text) → Result Text Text
  unfolding attempt failure_text try_next
  try_addresses expected [] last_error = err (failure_text last_error)
  try_addresses expected (addr ∷ addrs) last_error =
      try_next (attempt sha256 expected (dial addr)) addr (try_addresses expected addrs)

  unfoldable pub connect_to_receiver : (expected : Text) (addrs : List Text) → Result Text Text
  unfolding try_addresses
  connect_to_receiver expected [] = err (codes "Receiver has no reachable address")
  connect_to_receiver expected (addr ∷ addrs) = try_addresses expected (addr ∷ addrs) none

  unfoldable pub with_pin : Result Text Text → (addrs : List Text) → Result Text Text
  unfolding connect_to_receiver
  with_pin (err e) addrs = err (codes "Receiver certificate is not usable: " ++ e)
  with_pin (ok expected) addrs = connect_to_receiver expected addrs

  -- The pin is made from the target's fingerprint first.
  unfoldable pub open_target : OpenPlayTarget → Result Text Text
  unfolding with_pin client_config_pinned
  open_target target = with_pin (client_config_pinned target.fingerprint) target.addrs
