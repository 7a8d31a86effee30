-- ===== src/Signaling/Server/Admission.antt =====
-- Who is let in, and what gets through to the session loop.
use openplay.Prelude.{none, refl}
use openplay.Protocol.Validate.{validate}
use openplay.Prelude.{◌∷◌}
use openplay.Signaling.{IncomingMessage}
use openplay.Protocol.Message.{SignalingMessage}
use openplay.Prelude.{
  some, ok, inl, inr, [], length, ℕ, List, ◌≡◌, arith, ◌≤◌, ◌+◌, All, ◌<◌, ◌^◌, ◌≢◌, Bool-cases,
  All-mono, ◌%◌, ◌==◌, ==_iff, Text, subst, ◌⊎◌, ◌++◌, sym, Option, All-append,
}
use openplay.Signaling.Server.{
  tls_accepted, tls_failed, tls_timed_out, upgraded, upgrade_failed, upgrade_timed_out, close,
  web_socket_error, stream_ended, idle,
}
use openplay.Prelude.Maps.{All-lookup}
use openplay.Signaling.Server.{
  SignalingServer, Connection, ConnectionEvent, ServerEvent, Phase, max_connections, accept,
  end_connection, set_phase, deliver, serve_connection, server_step, accepted, accept_failed,
  channel_closed, on_connection, handshaking, upgrading, established, text,
}
use openplay.Prelude.Maps.{insert, remove, lookup, All-insert, All-remove, All-lookup}

-- No id stands twice.
abbrev pub IsDistinct : List (ℕ × Connection) → Type 0
IsDistinct [] = Unit {0}
IsDistinct ((id, c) ∷ rest) = All (λ e. e.0 ≢ id) rest × IsDistinct rest

-- A message that `validate` passes, from a connection that was accepted, with that connection's
-- own reply handle.
pub record IsDelivered (next_id : ℕ) (im : IncomingMessage) : Type 0 where
  pub valid : validate im.message ≡ ok tt
  pub known : im.connection < next_id
  pub answers : im.reply.id ≡ im.connection

pub record IsSound (s : SignalingServer) : Type 0 where
  pub limit : length s.live ≤ max_connections
  pub fresh : All (λ e. e.0 < s.next_id) s.live
  pub distinct : IsDistinct s.live
  pub delivered : All (IsDelivered s.next_id) s.incoming

length-remove : (id : ℕ) (m : List (ℕ × Connection)) → length (remove id m) ≤ length m
unfolding remove
length-remove id [] = omega arith
length-remove id ((k, c) ∷ m) = ground (arith, length-remove id m)

remove-IsDistinct : (id : ℕ) (m : List (ℕ × Connection)) → IsDistinct m → IsDistinct (remove id m)
unfolding remove
remove-IsDistinct id [] d = tt
remove-IsDistinct id ((k, c) ∷ m) d =
    ground (arith, d, All-remove (λ e. e.0 ≢ k) id m d.0, remove-IsDistinct id m d.1)

-- A new phase for an entry that is there.
length-insert :
    (id : ℕ) (c : Connection) (m : List (ℕ × Connection)) {c' : Connection}
    → lookup id m ≡ some c'
    → length (insert id c m) ≡ length m
unfolding insert lookup
length-insert id c [] h = absurd (ground arith)
length-insert id c ((k, d) ∷ m) {c'} h = ground (arith, length-insert id c m {c' = c'})

insert-All :
    (P : ℕ → Type 0) (id : ℕ) (c : Connection) (m : List (ℕ × Connection)) {c' : Connection}
    → lookup id m ≡ some c'
    → All (λ e. P e.0) m
    → All (λ e. P e.0) (insert id c m)
insert-All P id c m h a = All-insert (λ e. P e.0) id c m (All-lookup (λ e. P e.0) id m h a) a

insert-IsDistinct :
    (id : ℕ) (c : Connection) (m : List (ℕ × Connection)) {c' : Connection}
    → lookup id m ≡ some c'
    → IsDistinct m
    → IsDistinct (insert id c m)
unfolding insert lookup
insert-IsDistinct id c [] h d = (tt, tt)
insert-IsDistinct id c ((k, e) ∷ m) {c'} h d = elim (Bool-cases (k == id)) [
  | inl hit ↦ ground (arith, d, ==_iff k id)
  | inr miss ↦
      let found : lookup id m ≡ some c' = ground arith in
      let later = insert-All (λ j. j ≢ k) id c m found d.0 in
      let rest = insert-IsDistinct id c m found d.1 in ground (arith, later, rest)
]

end_connection-IsSound : (s : SignalingServer) (id : ℕ) → IsSound s → IsSound (end_connection s id)
unfolding end_connection
end_connection-IsSound s id v = record {
  limit = omega (arith, length-remove id s.live, v.limit);
  fresh = All-remove (λ e. e.0 < s.next_id) id s.live v.fresh;
  distinct = remove-IsDistinct id s.live v.distinct;
  delivered = v.delivered;
}

set_phase-IsSound :
    (s : SignalingServer) (id : ℕ) (c : Connection) (phase : Phase) {c' : Connection}
    → lookup id s.live ≡ some c'
    → IsSound s
    → IsSound (set_phase s id c phase)
unfolding set_phase
set_phase-IsSound s id c phase h v = record {
  limit = omega (arith, length-insert id (record c { phase = phase }) s.live h, v.limit);
  fresh = insert-All (λ k. k < s.next_id) id _ s.live h v.fresh;
  distinct = insert-IsDistinct id _ s.live h v.distinct;
  delivered = v.delivered;
}

abbrev incoming_message : ℕ → Connection → SignalingMessage → IncomingMessage
incoming_message id c m = record {
  message = m;
  reply = record { id = id };
  connection = id;
  peer = c.peer;
}

-- What becomes of a message: nothing, the end of its connection, or a place in the queue.
deliver-cases :
    (s : SignalingServer) (id : ℕ) (c : Connection) (m : SignalingMessage)
    → (deliver s id c m ≡ s)
      ⊎ ((deliver s id c m ≡ end_connection s id)
          ⊎ ((validate m ≡ ok tt)
              × (deliver s id c m
                  ≡ record s { incoming = s.incoming ++ (incoming_message id c m ∷ []) })))
unfolding deliver
deliver-cases s id c m = ground arith

deliver-IsSound :
    (s : SignalingServer) (id : ℕ) (c : Connection) (m : SignalingMessage) {c' : Connection}
    → lookup id s.live ≡ some c'
    → IsSound s
    → IsSound (deliver s id c m)
deliver-IsSound s id c m h v = elim (deliver-cases s id c m) [
  | inl dropped ↦ subst IsSound (sym dropped) v
  | inr other ↦ elim other [
    | inl gone ↦ subst IsSound (sym gone) (end_connection-IsSound s id v)
    | inr (valid, queued) ↦ subst IsSound (sym queued) (record {
      limit = v.limit;
      fresh = v.fresh;
      distinct = v.distinct;
      delivered =
          All-append (IsDelivered s.next_id) s.incoming (incoming_message id c m ∷ []) v.delivered (
            record {
              valid = valid;
              known = All-lookup (λ e. e.0 < s.next_id) id s.live h v.fresh;
              answers = refl;
            },
            tt,
          );
    })
  ]
]

abbrev admitted : SignalingServer → ℕ → SignalingServer
admitted s peer = record s {
  next_id = (s.next_id + 1) % 2 ^ 64;
  live = (s.next_id, record { peer = peer; phase = handshaking }) ∷ s.live;
}

accept-cases :
    (s : SignalingServer) (peer : ℕ)
    → (accept s peer ≡ s) ⊎ ((length s.live < max_connections) × (accept s peer ≡ admitted s peer))
unfolding accept
accept-cases s peer = ground arith

admitted-IsSound :
    (s : SignalingServer) (peer : ℕ)
    → s.next_id + 1 < 2 ^ 64
    → length s.live < max_connections
    → IsSound s
    → IsSound (admitted s peer)
admitted-IsSound s peer w room v = record {
  limit = omega arith;
  fresh = (
    omega arith,
    All-mono (λ e. e.0 < s.next_id) (λ e. e.0 < (s.next_id + 1) % 2 ^ 64) s.live
        (λ e l. omega arith) v.fresh,
  );
  distinct = (
    All-mono (λ e. e.0 < s.next_id) (λ e. e.0 ≢ s.next_id) s.live (λ e l same. absurd (omega arith))
        v.fresh,
    v.distinct,
  );
  delivered =
      All-mono (IsDelivered s.next_id) (IsDelivered ((s.next_id + 1) % 2 ^ 64)) s.incoming
        (λ im d. record { valid = d.valid; known = omega (arith, d.known); answers = d.answers })
        v.delivered;
}

accept-IsSound :
    (s : SignalingServer) (peer : ℕ) → s.next_id + 1 < 2 ^ 64 → IsSound s → IsSound (accept s peer)
accept-IsSound s peer w v = elim (accept-cases s peer) [
  | inl refused ↦ subst IsSound (sym refused) v
  | inr (room, taken) ↦ subst IsSound (sym taken) (admitted-IsSound s peer w room v)
]

module _ (from_str : Text → Option SignalingMessage) where
  serve_connection-IsSound :
      (s : SignalingServer) (id : ℕ) (c : Connection) (phase : Phase) (e : ConnectionEvent)
      → lookup id s.live ≡ some c
      → IsSound s
      → IsSound (serve_connection from_str s id c phase e)
  unfolding serve_connection
  serve_connection-IsSound s id c handshaking tls_accepted h v =
      set_phase-IsSound s id c upgrading h v
  serve_connection-IsSound s id c upgrading upgraded h v = set_phase-IsSound s id c established h v
  serve_connection-IsSound s id c established (text t) h v = read (from_str t)
    where
      read :
          (o : Option SignalingMessage)
          → IsSound (elim o [ none ↦ s | some message ↦ deliver s id c message ])
      read none = v
      read (some m) = deliver-IsSound s id c m h v
  serve_connection-IsSound s id c handshaking tls_failed h v = end_connection-IsSound s id v
  serve_connection-IsSound s id c handshaking tls_timed_out h v = end_connection-IsSound s id v
  serve_connection-IsSound s id c upgrading upgrade_failed h v = end_connection-IsSound s id v
  serve_connection-IsSound s id c upgrading upgrade_timed_out h v = end_connection-IsSound s id v
  serve_connection-IsSound s id c established close h v = end_connection-IsSound s id v
  serve_connection-IsSound s id c established web_socket_error h v = end_connection-IsSound s id v
  serve_connection-IsSound s id c established stream_ended h v = end_connection-IsSound s id v
  serve_connection-IsSound s id c established idle h v = end_connection-IsSound s id v
  serve_connection-IsSound s id c _ _ h v = v

  -- As long as the counter of ids does not wrap around, whatever happens leaves at most sixteen
  -- connections, no two of them with the same id, and in the queue of the session loop only
  -- messages that `validate` passes, each with the id and the reply handle of a connection that
  -- was accepted. It does not matter how the text of a message is read.
  pub server_step-IsSound :
      (s : SignalingServer) (e : ServerEvent)
      → s.next_id + 1 < 2 ^ 64
      → IsSound s
      → IsSound (server_step from_str s e)
  unfolding server_step
  server_step-IsSound s (accepted peer) w v = accept-IsSound s peer w v
  server_step-IsSound s accept_failed w v = v
  server_step-IsSound s channel_closed w v = record {
    limit = v.limit;
    fresh = v.fresh;
    distinct = v.distinct;
    delivered = v.delivered;
  }
  server_step-IsSound s (on_connection id e) w v =
      known (lookup id s.live) (λ c h. serve_connection-IsSound s id c c.phase e h v)
    where
      known :
          (o : Option Connection)
          → ((c : Connection) → o ≡ some c → IsSound (serve_connection from_str s id c c.phase e))
          → IsSound (elim o [ none ↦ s | some c ↦ serve_connection from_str s id c c.phase e ])
      known none go = v
      known (some c) go = go c refl
