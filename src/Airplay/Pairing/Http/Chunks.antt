-- ===== src/Airplay/Pairing/Http/Chunks.antt =====
-- crates/openplay-airplay/src/hap_pairing.rs: a response is read whole, however it arrives.
use openplay.Prelude.{suc, if◌then◌else◌}
use openplay.Prelude.Strings.{or_else}
use openplay.Prelude.Utf8.{from_utf8_lossy}
use openplay.Prelude.Search.{crlf_crlf, find_subslice, find_subslice-append, find_subslice-bound}
use openplay.Prelude.{none, some}
use openplay.Prelude.{inl, inr, refl}
use openplay.Prelude.{
  ok, [], ◌≤◌, ℕ, List, ◌++◌, All, take, length, ◌+◌, drop, ◌≡◌, ◌∷◌, arith, ◌∙◌, sym, ◌-◌, ◌<◌,
  length-append, ap, take-append_left, take-append_le, max, ◌%◌, ◌^◌, leb, Text, ◌*◌, subst,
  Option-cases,
}
use mathlib.Core.List.{append-nil}
use openplay.Airplay.Stream.{Arrival, ready, read_error, read_length, TcpStream}
use openplay.Airplay.Pairing.Http.{
  Received, read_body, read_rest, read_after, read_headers, check_http_status, parse_content_length,
  recv_response,
}
use openplay.Airplay.Pairing.Http.Body.{
  IsReady, moved, nonzero, read_length-le, read_length-positive, read-lengths, read_body-whole,
}

some_injective : {a b : ℕ} → some a ≡ some b → a ≡ b
some_injective e = ground arith

take-length : (xs : List ℕ) → take (length xs) xs ≡ xs
take-length [] = refl
take-length (x ∷ xs) = ap (◌∷◌ x) (take-length xs)

-- A response as the receiver writes it.
abbrev pub response : (head body : List ℕ) → List ℕ
response head body = head ++ (crlf_crlf ++ body)

-- The headers end where they end, they report success, and they announce the length of the body.
pub record IsAnswer (head body : List ℕ) : Type 0 where
  pub ends : find_subslice (response head body) crlf_crlf ≡ some (length head)
  pub success : check_http_status (from_utf8_lossy head) ≡ ok tt
  pub announced : or_else (parse_content_length (from_utf8_lossy head)) 0 ≡ length body
  pub fits : length (response head body) < 2 ^ 64

read_rest-success :
    (size header_end content_length : ℕ) (got incoming : List ℕ) (arrivals : List Arrival)
    (header_str : Text)
    → from_utf8_lossy (take header_end got) ≡ header_str
    → check_http_status header_str ≡ ok tt
    → or_else (parse_content_length header_str) 0 ≡ content_length
    → read_rest size header_end got incoming arrivals
      ≡ read_body
          (max size ((header_end + 4 + content_length) % 2 ^ 64))
          (header_end + 4)
          content_length
          got
          incoming
          arrivals
unfolding read_rest read_after
read_rest-success size header_end content_length got incoming arrivals header_str e status
      announced =
    λ i. read_after size (header_end + 4) (length_at i) got incoming arrivals (status_at i)
  where
    length_at :
        or_else (parse_content_length (from_utf8_lossy (take header_end got))) 0 ≡ content_length
    length_at = ap (λ t. or_else (parse_content_length t) 0) e ∙ announced

    status_at : check_http_status (from_utf8_lossy (take header_end got)) ≡ ok tt
    status_at = ap check_http_status e ∙ status

-- One round of the outer loop, by what the bytes that were got then hold.
module _ (size count : ℕ) (got incoming : List ℕ) (arrivals : List Arrival)
    (some_read : 1 ≤ read_length count (size - length got) incoming) where
  abbrev taken : ℕ
  taken = read_length count (size - length got) incoming

  read_headers-hit :
      (header_end : ℕ)
      → find_subslice (got ++ take taken incoming) crlf_crlf ≡ some header_end
      → read_headers size got incoming (ready count ∷ arrivals)
        ≡ read_rest size header_end (got ++ take taken incoming) (drop taken incoming) arrivals
  unfolding read_headers
  read_headers-hit header_end hit = rw (nonzero taken some_read, hit) refl

  read_headers-miss :
      find_subslice (got ++ take taken incoming) crlf_crlf ≡ none
      → read_headers size got incoming (ready count ∷ arrivals)
        ≡ read_headers
            (if leb size (length (got ++ take taken incoming)) then size * 2 else size)
            (got ++ take taken incoming)
            (drop taken incoming)
            arrivals
  unfolding read_headers
  read_headers-miss miss = rw (nonzero taken some_read, miss) refl

module _ (head body : List ℕ) (answer : IsAnswer head body) where
  length-response : length (response head body) ≡ length head + 4 + length body
  length-response = omega (arith, length-append head (crlf_crlf ++ body))

  take-response : take (length head) (response head body) ≡ head
  take-response = take-append_left head (crlf_crlf ++ body)

  drop-response : (h : List ℕ) → drop (length h + 4) (response h body) ≡ body
  drop-response [] = refl
  drop-response (x ∷ h) =
      ap (λ k. drop k (response (x ∷ h) body)) (next (length h)) ∙ drop-response h
    where
      next : (k : ℕ) → suc k + 4 ≡ suc (k + 4)
      next k = omega arith

  read_rest-whole :
      (size : ℕ) (got incoming : List ℕ) (arrivals : List Arrival)
      → All IsReady arrivals
      → length incoming ≤ length arrivals
      → got ++ incoming ≡ response head body
      → length head + 4 ≤ length got
      → (rest : List Arrival) × (read_rest size (length head) got incoming arrivals
          ≡ ([], rest, ok body))
  read_rest-whole size got incoming arrivals h le whole begun =
      let (rest, e) =
        read_body-whole (max size ((length head + 4 + length body) % 2 ^ 64)) (length head + 4)
          (length body) (omega (arith, answer.fits, length-response)) got incoming arrivals h le
          begun (omega (arith, ap length whole, length-append got incoming, length-response)) in
      (
        rest,
        read_rest-success size (length head) (length body) got incoming arrivals
              (from_utf8_lossy head) (ap from_utf8_lossy header_str) answer.success answer.announced
            ∙ (e
                ∙ ap (λ t. ([], rest, ok t))
                    (ap (λ t. take (length body) (drop (length head + 4) t)) whole
                      ∙ ap (take (length body)) (drop-response head)
                      ∙ take-length body)),
      )
    where
      header_str : take (length head) got ≡ head
      header_str =
          sym (take-append_le (length head) got incoming (omega arith))
          ∙ ap (take (length head)) whole
          ∙ take-response

  read_headers-whole :
      (size : ℕ) (got incoming : List ℕ) (arrivals : List Arrival)
      → All IsReady arrivals
      → length incoming ≤ length arrivals
      → got ++ incoming ≡ response head body
      → find_subslice got crlf_crlf ≡ none
      → length got < size
      → (rest : List Arrival) × (read_headers size got incoming arrivals ≡ ([], rest, ok body))
  unfolding IsReady
  read_headers-whole size got [] arrivals h le whole missing room = absurd (
      ground (
        arith,
        sym missing
            ∙ ap (λ t. find_subslice t crlf_crlf) (sym (append-nil got) ∙ whole)
            ∙ answer.ends,
      ))
  read_headers-whole size got (x ∷ xs) [] h le whole missing room = absurd (omega arith)
  read_headers-whole size got (x ∷ xs) (read_error ∷ arrivals) h le whole missing room = absurd h.0
  read_headers-whole size got (x ∷ xs) (ready count ∷ arrivals) h le whole missing room =
      elim (Option-cases (find_subslice got' crlf_crlf)) [
        | inr (k, hit) ↦
            let where_ends = ends_at k hit in
            let (rest, e) = read_rest-whole size got' incoming' arrivals h.1 shorter whole' (
              subst (λ m. m + 4 ≤ length got') where_ends
                (find_subslice-bound got' crlf_crlf hit)) in
            (
              rest,
              read_headers-hit size count got (x ∷ xs) arrivals some_read k hit
                  ∙ ap (λ m. read_rest size m got' incoming' arrivals) where_ends
                  ∙ e,
            )
        | inl miss ↦
            let (rest, e) =
              read_headers-whole (if leb size (length got') then size * 2 else size) got' incoming'
                arrivals h.1 shorter whole' miss (ground (arith, lens.0, bounds.0)) in
            (rest, read_headers-miss size count got (x ∷ xs) arrivals some_read miss ∙ e)
      ]
    where
      n : ℕ
      n = read_length count (size - length got) (x ∷ xs)

      got' : List ℕ
      got' = got ++ take n (x ∷ xs)

      incoming' : List ℕ
      incoming' = drop n (x ∷ xs)

      bounds : (n ≤ size - length got) × (n ≤ length (x ∷ xs))
      bounds = read_length-le count (size - length got) (x ∷ xs)

      some_read : 1 ≤ n
      some_read =
          read_length-positive count (size - length got) (x ∷ xs) h.0 (omega arith) (omega arith)

      lens : (length got' ≡ length got + n) × (length incoming' ≡ length (x ∷ xs) - n)
      lens = read-lengths n got (x ∷ xs) bounds.1

      shorter : length incoming' ≤ length arrivals
      shorter = omega (arith, lens.1, some_read)

      whole' : got' ++ incoming' ≡ response head body
      whole' = moved n got (x ∷ xs) ∙ whole

      ends_at : (k : ℕ) → find_subslice got' crlf_crlf ≡ some k → k ≡ length head
      ends_at k hit = some_injective (
          sym (find_subslice-append got' incoming' crlf_crlf hit)
          ∙ ap (λ t. find_subslice t crlf_crlf) whole'
          ∙ answer.ends)

none_in_nothing : find_subslice [] crlf_crlf ≡ none
unfolding find_subslice
none_in_nothing = refl

-- A response is returned whole, and taken off the stream whole, however many bytes each read
-- finds, when every read finds one at least and there are as many reads as bytes.
pub recv_response-whole :
    (head body : List ℕ) (s : TcpStream)
    → IsAnswer head body
    → s.incoming ≡ response head body
    → All IsReady s.arrivals
    → length (response head body) ≤ length s.arrivals
    → (rest : List Arrival) × (recv_response s
        ≡ (record s { incoming = []; arrivals = rest }, ok body))
unfolding recv_response
recv_response-whole head body s answer whole h le =
    let (rest, e) =
      read_headers-whole head body answer 8192 [] s.incoming s.arrivals h
        (subst (λ t. length t ≤ length s.arrivals) (sym whole) le) whole none_in_nothing
        (omega arith) in
    (rest, ap (λ (r : Received). (record s { incoming = r.0; arrivals = r.1 }, r.2)) e)
