-- ===== src/Airplay/Stream.antt =====
-- The `TcpStream` of crates/openplay-airplay: what the socket will do is a script. The peer speaks
-- in turns, one after each request; bytes of a turn that were not read stay in front of the next.
-- When the script of a turn is over, the peer stays silent and the read never returns.
use openplay.Prelude.{true, false, [], if◌then◌else◌}
use openplay.Prelude.{ℕ, List, Bool, min, ◌∷◌, ◌++◌, length}

-- A read finds this many bytes, or fails. No bytes, or none that are left, are the end.
pub data Arrival : Type 0 where
  ready : ℕ → Arrival
  read_error : Arrival

pub record Turn : Type 0 where
  pub bytes : List ℕ
  pub arrivals : List Arrival

pub record TcpStream : Type 0 where
  pub incoming : List ℕ
  pub arrivals : List Arrival
  pub turns : List Turn
  pub writes : List Bool
  pub sent : List (List ℕ)

-- The bytes that a read with this room takes.
unfoldable pub read_length : (count room : ℕ) → List ℕ → ℕ
read_length count room incoming = min count (min room (length incoming))

-- `write_all`: it is asked of the script whether it succeeds; a script that is over lets it.
unfoldable pub write_all : List ℕ → TcpStream → TcpStream × Bool
write_all bytes s = elim s.writes [
  | [] ↦ (record s { sent = s.sent ++ (bytes ∷ []) }, true)
  | w ∷ ws ↦
      if w
      then (record s { writes = ws; sent = s.sent ++ (bytes ∷ []) }, true)
      else (record s { writes = ws }, false)
]

-- The request is out, and the next turn of the peer begins.
unfoldable pub flush : TcpStream → TcpStream
flush s = elim s.turns [
  | [] ↦ s
  | t ∷ ts ↦ record s { incoming = s.incoming ++ t.bytes; arrivals = t.arrivals; turns = ts }
]
