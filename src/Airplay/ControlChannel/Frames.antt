-- ===== src/Airplay/ControlChannel/Frames.antt =====
-- crates/openplay-airplay/src/control_channel.rs: what one side sends, the other side receives.
use openplay.Prelude.{none, inl, inr, refl}
use openplay.Prelude.{
  zero, suc, some, ok, err, true, [], ◌≡◌, List, ℕ, ◌++◌, ◌∷◌, length, ◌+◌, arith, ◌≤◌, ◌%◌, ◌^◌,
  Bool-cases, Option, leb, ◌∙◌, ap, ltb, sym, length-append, take, take-append_left, drop,
  drop-append_left, Result,
}
use mathlib.Core.List.{append_assoc, append-nil}
use openplay.Prelude.Endian.{to_le_bytes}
use openplay.Airplay.Stream.{TcpStream, write_all}
use openplay.Airplay.ControlChannel.{
  Aead, IsAead, ControlChannel, ChannelError, Channel, continue_on, max_frame, nonce_for,
  length_prefix, read_exact, send, send_sealed, write_frame, recv, recv_after, recv_sealed, opened,
}

-- Several messages, one after the other, until one fails.
unfoldable pub send_all : Aead → List (List ℕ) → Channel (Unit {0})
send_all c [] ch = (ch, ok tt)
send_all c (m ∷ ms) ch = continue_on (send c m ch) λ _. send_all c ms

unfoldable pub recv_all : Aead → (count : ℕ) → Channel (List (List ℕ))
recv_all c zero ch = (ch, ok [])
recv_all c (suc count) ch =
    continue_on (recv c ch)
      λ m ch'. continue_on (recv_all c count ch') λ ms ch''. (ch'', ok (m ∷ ms))

-- The bytes of the writes.
unfoldable pub joined : List (List ℕ) → List ℕ
joined [] = []
joined (w ∷ ws) = w ++ joined ws

-- The other end of a channel: it reads with the key and the counter that this end writes with.
abbrev pub PeerOf : ControlChannel → ControlChannel → Type 0
PeerOf a b = (b.read_cipher ≡ a.write_cipher) × (b.read_counter ≡ a.write_counter)

-- A frame that was sent: sealed under the counter, which then moves on, and written in two parts.
pub record IsSent (c : Aead) (plaintext : List ℕ) (a a' : ControlChannel) : Type 0 where
  pub sealed : List ℕ
  pub encrypted :
      c.encrypt a.write_cipher
        (nonce_for a.write_counter)
        (to_le_bytes 2 (length plaintext))
        plaintext
      ≡ some sealed
  pub sent : a'.stream.sent ≡ a.stream.sent ++ (to_le_bytes 2 (length plaintext) ∷ sealed ∷ [])
  pub counter : a'.write_counter ≡ (a.write_counter + 1) % 2 ^ 64
  pub cipher : a'.write_cipher ≡ a.write_cipher
  pub fits : length plaintext ≤ max_frame

write_all-sent :
    (bytes : List ℕ) (s s' : TcpStream)
    → write_all bytes s ≡ (s', true)
    → s'.sent ≡ s.sent ++ (bytes ∷ [])
unfolding write_all
write_all-sent bytes s s' h = ground arith

write_frame-sent :
    (c : Aead) (len sealed : List ℕ) (a : ControlChannel) {a' : ControlChannel} {u : Unit {0}}
    → write_frame c len sealed a ≡ (a', ok u)
    → (a'.stream.sent ≡ a.stream.sent ++ (len ∷ sealed ∷ []))
      × (a'.write_counter ≡ a.write_counter)
      × (a'.write_cipher ≡ a.write_cipher)
unfolding write_frame write_all
write_frame-sent c len sealed a h =
    ground (arith, append_assoc a.stream.sent (len ∷ []) (sealed ∷ []))

send_sealed-IsSent :
    (c : Aead) (plaintext : List ℕ) (a : ControlChannel) (o : Option (List ℕ)) {a' : ControlChannel}
    {u : Unit {0}}
    → c.encrypt a.write_cipher
        (nonce_for a.write_counter)
        (to_le_bytes 2 (length plaintext))
        plaintext
      ≡ o
    → length plaintext ≤ max_frame
    → send_sealed c (to_le_bytes 2 (length plaintext)) o a ≡ (a', ok u)
    → IsSent c plaintext a a'
unfolding send_sealed
send_sealed-IsSent c plaintext a none e fits h = absurd (ground arith)
send_sealed-IsSent c plaintext a (some sealed) e fits h =
    let (sent, counter, cipher) =
      write_frame-sent c (to_le_bytes 2 (length plaintext)) sealed
        (record a { write_counter = (a.write_counter + 1) % 2 ^ 64 }) h in
    record {
      sealed = sealed;
      encrypted = e;
      sent = sent;
      counter = counter;
      cipher = cipher;
      fits = fits;
    }

pub send-IsSent :
    (c : Aead) (plaintext : List ℕ) (a : ControlChannel) {a' : ControlChannel} {u : Unit {0}}
    → send c plaintext a ≡ (a', ok u)
    → IsSent c plaintext a a'
unfolding send
send-IsSent c plaintext a {a'} {u} h = elim (Bool-cases (ltb max_frame (length plaintext))) [
  | inl long ↦ absurd (ground arith)
  | inr fits ↦ send_sealed-IsSent c plaintext a _ refl (ground arith) (rw fits at h)
]

read_exact-front :
    (n : ℕ) (front back : List ℕ) (s : TcpStream)
    → length front ≡ n
    → s.incoming ≡ front ++ back
    → read_exact n s ≡ some (front, record s { incoming = back })
unfolding read_exact
read_exact-front n front back s len e =
    rw enough (λ i. some (front_is i, record s { incoming = back_is i }))
  where
    enough : leb n (length s.incoming) ≡ true
    enough = ground (arith, ap length e, length-append front back)

    front_is : take n s.incoming ≡ front
    front_is =
        ap (λ k. take k s.incoming) (sym len)
        ∙ ap (take (length front)) e
        ∙ take-append_left front back

    back_is : drop n s.incoming ≡ back
    back_is =
        ap (λ k. drop k s.incoming) (sym len)
        ∙ ap (drop (length front)) e
        ∙ drop-append_left front back

two_bytes : (n : ℕ) → length (to_le_bytes 2 n) ≡ 2
unfolding to_le_bytes
two_bytes n = refl

length_prefix-to_le_bytes : (n : ℕ) → n ≤ max_frame → length_prefix (to_le_bytes 2 n) ≡ n
unfolding length_prefix to_le_bytes
length_prefix-to_le_bytes n h = omega arith

module _ (c : Aead) (lawful : IsAead c) where
  -- A frame that is next in the stream is received.
  pub recv-frame :
      (plaintext sealed more : List ℕ) (b : ControlChannel)
      → c.encrypt b.read_cipher
          (nonce_for b.read_counter)
          (to_le_bytes 2 (length plaintext))
          plaintext
        ≡ some sealed
      → length plaintext ≤ max_frame
      → b.stream.incoming ≡ to_le_bytes 2 (length plaintext) ++ (sealed ++ more)
      → recv c b ≡ (
        record b {
          stream = record b.stream { incoming = more };
          read_counter = (b.read_counter + 1) % 2 ^ 64;
        },
        ok plaintext,
      )
  unfolding recv recv_after recv_sealed opened
  recv-frame plaintext sealed more b e fits incoming =
      ap (λ r. recv_after c r b) (read_exact-front 2 len (sealed ++ more) b.stream two incoming)
      ∙ ap (λ r. recv_sealed c len r (record b { stream = after_length }))
          (read_exact-front (length_prefix len + 16) sealed more after_length size refl)
      ∙ ap (λ o. opened c o (record b { stream = record b.stream { incoming = more } }))
          (lawful.decrypt-encrypt b.read_cipher (nonce_for b.read_counter) len plaintext sealed e)
    where
      len : List ℕ
      len = to_le_bytes 2 (length plaintext)

      after_length : TcpStream
      after_length = record b.stream { incoming = sealed ++ more }

      two : length len ≡ 2
      two = two_bytes (length plaintext)

      size : length sealed ≡ length_prefix len + 16
      size =
          lawful.length_lem b.read_cipher (nonce_for b.read_counter) len plaintext sealed e
          ∙ ap (λ k. k + 16) (sym (length_prefix-to_le_bytes (length plaintext) fits))

joined-append : (xs ys : List (List ℕ)) → joined (xs ++ ys) ≡ joined xs ++ joined ys
unfolding joined
joined-append [] ys = refl
joined-append (x ∷ xs) ys =
    ap (λ t. x ++ t) (joined-append xs ys) ∙ sym (append_assoc x (joined xs) (joined ys))

-- The receiver after it has read so far as `more` in the stream and `counter` in the frames.
abbrev pub read_up_to : ControlChannel → (more : List ℕ) (counter : ℕ) → ControlChannel
read_up_to b more counter = record b {
  stream = record b.stream { incoming = more };
  read_counter = counter;
}

-- What the one end wrote for these messages, and that the other end reads them from it.
pub record Arrives (c : Aead) (messages : List (List ℕ)) (a a' : ControlChannel) : Type 0 where
  pub writes : List (List ℕ)
  pub written : a'.stream.sent ≡ a.stream.sent ++ writes
  pub received :
      (b : ControlChannel) (more : List ℕ)
      → PeerOf a b
      → b.stream.incoming ≡ joined writes ++ more
      → recv_all c (length messages) b ≡ (read_up_to b more a'.write_counter, ok messages)

recv_all-step :
    (c : Aead) (count : ℕ) (m : List ℕ) (ms : List (List ℕ)) (b b' b'' : ControlChannel)
    → recv c b ≡ (b', ok m)
    → recv_all c count b' ≡ (b'', ok ms)
    → recv_all c (suc count) b ≡ (b'', ok (m ∷ ms))
unfolding recv_all continue_on
recv_all-step c count m ms b b' b'' e1 e2 =
    ap
      (λ x.
        continue_on x
          (λ m ch'. continue_on (recv_all c count ch') (λ ms ch''. (ch'', ok (m ∷ ms)))))
      e1
    ∙ ap (λ x. continue_on x (λ ms ch''. (ch'', ok (m ∷ ms)))) e2

pub continue_on-ok :
    {A B : Type 0} (x : ControlChannel × Result A ChannelError) (f : A → Channel B)
    {ch' : ControlChannel} {b : B}
    → continue_on x f ≡ (ch', ok b)
    → (ch : ControlChannel) × (a : A) × (x ≡ (ch, ok a)) × (f a ch ≡ (ch', ok b))
unfolding continue_on
continue_on-ok (ch, ok a) f h = (ch, a, refl, h)
continue_on-ok (ch, err e) f h = absurd (ground arith)

module _ (c : Aead) (lawful : IsAead c) where
  Arrives-nil : (a a' : ControlChannel) → a ≡ a' → Arrives c [] a a'
  unfolding recv_all joined
  Arrives-nil a a' same = record {
    writes = [];
    written = ap (λ ch. ch.stream.sent) (sym same) ∙ sym (append-nil a.stream.sent);
    received = λ b more peer incoming.
        λ i. (read_up_to b (incoming i) ((peer.1 ∙ ap (λ ch. ch.write_counter) same) i), ok []);
  }

  Arrives-cons :
      (m : List ℕ) (ms : List (List ℕ)) (a a1 a' : ControlChannel)
      → IsSent c m a a1
      → Arrives c ms a1 a'
      → Arrives c (m ∷ ms) a a'
  unfolding joined
  Arrives-cons m ms a a1 a' first later = record {
    writes = len ∷ first.sealed ∷ later.writes;
    written =
        later.written
        ∙ ap (λ t. t ++ later.writes) first.sent
        ∙ append_assoc a.stream.sent (len ∷ first.sealed ∷ []) later.writes;
    received = λ b more peer incoming.
        let b1 = read_up_to b (joined later.writes ++ more) ((b.read_counter + 1) % 2 ^ 64) in
        recv_all-step c (length ms) m ms b b1 (read_up_to b more a'.write_counter)
          (recv-frame c lawful m first.sealed (joined later.writes ++ more) b
            ((λ i. c.encrypt (peer.0 i) (nonce_for (peer.1 i)) len m) ∙ first.encrypted) first.fits
            (incoming
              ∙ append_assoc len (first.sealed ++ joined later.writes) more
              ∙ ap (λ t. len ++ t) (append_assoc first.sealed (joined later.writes) more)))
          (later.received b1 more
            (peer.0 ∙ sym first.cipher, ap (λ k. (k + 1) % 2 ^ 64) peer.1 ∙ sym first.counter)
            refl);
  }
    where
      len : List ℕ
      len = to_le_bytes 2 (length m)

  -- Whatever was sent arrives: when the sends of these messages succeed, another end that reads
  -- with the same key and counter receives exactly these messages, in this order, from what was
  -- written, and is left in front of what comes after them, at the counter of the sender.
  pub recv_all-send_all :
      (messages : List (List ℕ)) (a : ControlChannel) {a' : ControlChannel} {u : Unit {0}}
      → send_all c messages a ≡ (a', ok u)
      → Arrives c messages a a'
  unfolding send_all
  recv_all-send_all [] a {a'} h = Arrives-nil a a' (ap (λ r. r.0) h)
  recv_all-send_all (m ∷ ms) a {a'} {u} h =
      let (a1, done, e, h1) = continue_on-ok (send c m a) (λ _. send_all c ms) h in
      Arrives-cons m ms a a1 a' (send-IsSent c m a e) (recv_all-send_all ms a1 h1)
