-- ===== src/Airplay/ControlChannel/Request.antt =====
-- crates/openplay-airplay/src/control_channel.rs: a request and the frames of its response.
use openplay.Prelude.{zero, suc, err, inl, inr, true, false, refl, []}
use openplay.Prelude.{
  none, some, ok, ℕ, List, Option, ◌≡◌, length, ◌+◌, ◌≤◌, arith, length-drop, ◌<◌, ap, ◌∷◌, Result,
  Option-cases, ◌++◌, ◌∙◌, sym,
}
use mathlib.Core.List.{append_assoc, append-nil}
use openplay.Airplay.Stream.{TcpStream}
use openplay.Airplay.ControlChannel.{
  IsAead, Aead, ControlChannel, ChannelError, continue_on, read_exact, length_prefix, opened,
  recv_sealed, recv_after, recv, send, nonce_for, collect, request, is_complete,
}
use openplay.Airplay.ControlChannel.Frames.{
  PeerOf, read_up_to, send_all, recv_all-send_all, recv_all, joined, continue_on-ok,
}

read_exact-shorter :
    (n : ℕ) (s : TcpStream) {bytes : List ℕ} {s' : TcpStream}
    → read_exact n s ≡ some (bytes, s')
    → length s'.incoming + n ≡ length s.incoming
unfolding read_exact
read_exact-shorter n s h = ground (arith, length-drop n s.incoming)

opened-stream :
    (c : Aead) (o : Option (List ℕ)) (ch : ControlChannel) → (opened c o ch).0.stream ≡ ch.stream
unfolding opened
opened-stream c none ch = refl
opened-stream c (some plaintext) ch = refl

recv_sealed-shorter :
    (c : Aead) (n : ℕ) (len_buf : List ℕ) (s : TcpStream) (ch : ControlChannel)
    {ch' : ControlChannel} {m : List ℕ}
    → recv_sealed c len_buf (read_exact n s) ch ≡ (ch', ok m)
    → length ch'.stream.incoming ≤ length s.incoming
unfolding recv_sealed
recv_sealed-shorter c n len_buf s ch {ch'} {m} h = elim (Option-cases (read_exact n s)) [
  | inl none_read ↦
      absurd (failed (ap (λ o. (recv_sealed c len_buf o ch).1) (sym none_read) ∙ ap (λ r. r.1) h))
  | inr ((sealed, s'), e) ↦
      let same : s' ≡ ch'.stream =
        sym (
          opened-stream c (c.decrypt ch.read_cipher (nonce_for ch.read_counter) len_buf sealed)
            (record ch { stream = s' }))
        ∙ ap (λ o. (recv_sealed c len_buf o ch).0.stream) (sym e)
        ∙ ap (λ r. r.0.stream) h in
      omega (arith, read_exact-shorter n s e, ap (λ t. length t.incoming) same)
]
  where
    failed :
        {e : ChannelError} {a : List ℕ} → ◌≡◌ {A = Result (List ℕ) ChannelError} (err e) (ok a) → ⊥
    failed p = ground arith

-- A frame takes two bytes off the stream at least.
pub recv-shorter :
    (c : Aead) (ch : ControlChannel) {ch' : ControlChannel} {m : List ℕ}
    → recv c ch ≡ (ch', ok m)
    → length ch'.stream.incoming + 2 ≤ length ch.stream.incoming
unfolding recv recv_after
recv-shorter c ch {ch'} {m} h = elim (Option-cases (read_exact 2 ch.stream)) [
  | inl none_read ↦
      absurd (failed (ap (λ o. (recv_after c o ch).1) (sym none_read) ∙ ap (λ r. r.1) h))
  | inr ((len_buf, s), e) ↦
      let later =
        recv_sealed-shorter c (length_prefix len_buf + 16) len_buf s (record ch { stream = s })
          (ap (λ o. recv_after c o ch) (sym e) ∙ h) in
      omega (arith, later, read_exact-shorter 2 ch.stream e)
]
  where
    failed :
        {e : ChannelError} {a : List ℕ} → ◌≡◌ {A = Result (List ℕ) ChannelError} (err e) (ok a) → ⊥
    failed p = ground arith

-- The parts of a response: it is complete with the last, and not before.
unfoldable pub CompletesAt : (buf : List ℕ) (parts : List (List ℕ)) → Type 0
CompletesAt buf [] = ⊥
CompletesAt buf (p ∷ []) = is_complete (buf ++ p) ≡ true
CompletesAt buf (p ∷ q ∷ ps) = (is_complete (buf ++ p) ≡ false) × CompletesAt (buf ++ p) (q ∷ ps)

ok_cons :
    {m p : List ℕ} {ms ps : List (List ℕ)}
    → ◌≡◌ {A = Result (List (List ℕ)) ChannelError} (ok (m ∷ ms)) (ok (p ∷ ps))
    → (m ≡ p) × (ms ≡ ps)
ok_cons h = ground arith

recv_all-inv :
    (c : Aead) (count : ℕ) (p : List ℕ) (ps : List (List ℕ)) (ch : ControlChannel)
    {b : ControlChannel}
    → recv_all c (suc count) ch ≡ (b, ok (p ∷ ps))
    → (ch1 : ControlChannel) × (recv c ch ≡ (ch1, ok p)) × (recv_all c count ch1 ≡ (b, ok ps))
unfolding recv_all
recv_all-inv c count p ps ch {b} h =
    let (ch1, m, e1, h1) = continue_on-ok (recv c ch) _ h in
    let (ch2, ms, e2, h2) = continue_on-ok (recv_all c count ch1) _ h1 in
    let (head, tail) = ok_cons (ap (λ r. r.1) h2) in
    (ch1, e1 ∙ ap (λ w. (ch1, ok w)) head, e2 ∙ (λ i. ((h2 i).0, ok (tail i))))

nothing_more :
    (c : Aead) (ch : ControlChannel) {b : ControlChannel} → recv_all c 0 ch ≡ (b, ok []) → ch ≡ b
unfolding recv_all
nothing_more c ch h = ap (λ r. r.0) h

module _ (c : Aead) (fuel : ℕ) (buf p : List ℕ) (ch ch1 : ControlChannel)
    (received : recv c ch ≡ (ch1, ok p)) where
  collect-last : is_complete (buf ++ p) ≡ true → collect c (suc fuel) buf ch ≡ (ch1, ok (buf ++ p))
  unfolding collect continue_on
  collect-last done = rw (received, done) refl

  collect-more :
      is_complete (buf ++ p) ≡ false → collect c (suc fuel) buf ch ≡ collect c fuel (buf ++ p) ch1
  unfolding collect continue_on
  collect-more wanting = rw (received, wanting) refl

collect-joined :
    (c : Aead) (fuel : ℕ) (buf : List ℕ) (parts : List (List ℕ)) (ch : ControlChannel)
    {b : ControlChannel}
    → length ch.stream.incoming < fuel
    → CompletesAt buf parts
    → recv_all c (length parts) ch ≡ (b, ok parts)
    → collect c fuel buf ch ≡ (b, ok (buf ++ joined parts))
unfolding CompletesAt joined
collect-joined c fuel buf [] ch enough completes h = absurd completes
collect-joined c zero buf (p ∷ ps) ch enough completes h = absurd (omega arith)
collect-joined c (suc fuel) buf (p ∷ []) ch {b} enough completes h =
    let (ch1, e, rest) = recv_all-inv c 0 p [] ch h in
    collect-last c fuel buf p ch ch1 e completes
    ∙ ap (λ t. (ch1, ok (buf ++ t))) (sym (append-nil p))
    ∙ ap (λ x. (x, ok (buf ++ (p ++ [])))) (nothing_more c ch1 rest)
collect-joined c (suc fuel) buf (p ∷ q ∷ ps) ch {b} enough completes h =
    let (ch1, e, rest) = recv_all-inv c (suc (length ps)) p (q ∷ ps) ch h in
    collect-more c fuel buf p ch ch1 e completes.0
    ∙ collect-joined c fuel (buf ++ p) (q ∷ ps) ch1 (omega (arith, recv-shorter c ch e)) completes.1
        rest
    ∙ ap (λ t. (b, ok t)) (append_assoc buf p (joined (q ∷ ps)))

request-joined :
    (c : Aead) (message : List ℕ) (ch : ControlChannel) (parts : List (List ℕ))
    {sent b : ControlChannel} {u : Unit {0}}
    → send c message ch ≡ (sent, ok u)
    → CompletesAt [] parts
    → recv_all c (length parts) sent ≡ (b, ok parts)
    → request c message ch ≡ (b, ok (joined parts))
unfolding request continue_on
request-joined c message ch parts {sent} {b} was_sent completes received =
    ap (λ x. continue_on x (λ _ ch'. collect c (length ch'.stream.incoming + 1) [] ch')) was_sent
    ∙ collect-joined c (length sent.stream.incoming + 1) [] parts sent (omega arith) completes
        received

-- A request that was sent is answered with the peer's response, however the peer cut it into
-- frames: the frames that the peer has sent, joined, and nothing behind the one that completes
-- the response. The peer writes with the key and the counter that this end reads with, and has
-- written nothing before.
pub request-response :
    (c : Aead)
    → IsAead c
    → (message : List ℕ) (ch peer : ControlChannel) (parts : List (List ℕ)) (more : List ℕ)
      {sent peer' : ControlChannel} {u v : Unit {0}}
    → send c message ch ≡ (sent, ok u)
    → PeerOf peer sent
    → peer.stream.sent ≡ []
    → send_all c parts peer ≡ (peer', ok v)
    → sent.stream.incoming ≡ joined peer'.stream.sent ++ more
    → CompletesAt [] parts
    → request c message ch ≡ (read_up_to sent more peer'.write_counter, ok (joined parts))
request-response c lawful message ch peer parts more {sent} {peer'} was_sent ends fresh answered
      arrives completes =
    let arrival = recv_all-send_all c lawful parts peer answered in
    let all_written = arrival.written ∙ ap (λ t. t ++ arrival.writes) fresh in
    request-joined c message ch parts was_sent completes
      (arrival.received sent more ends (arrives ∙ ap (λ w. joined w ++ more) all_written))
