-- ===== src/Airplay/ControlChannel.antt =====
-- crates/openplay-airplay/src/control_channel.rs: the encrypted control channel. The peer's bytes
-- are those that will come before it closes the connection.
pub mod Frames
pub mod Nonces
pub mod Request
mod Examples
use openplay.Prelude.{
  zero, suc, none, some, ok, err, false, [], if◌then◌else◌, Result, ℕ, Option, List, leb, codes,
  ◌≡◌, ◌%◌, ◌∷◌, Text, length, ◌++◌, Bool, ◌+◌, ltb, take, map, ◌^◌, ◌/◌, ok_or, ◌*◌, ◌-◌, drop,
}
use openplay.Prelude.Utf8.{from_utf8_lossy}
use openplay.Prelude.Endian.{to_le_bytes}
use openplay.Prelude.Search.{find_subslice, crlf_crlf}
use openplay.Prelude.Strings.{
  lines, find, nth, split, trim, starts_with, lower, and_then, or_else, parse_number,
}
use openplay.Airplay.Stream.{TcpStream, write_all}

-- ChaCha20-Poly1305 with associated data, and HKDF over SHA-512.
pub record Aead : Type 0 where
  pub encrypt : (key nonce aad msg : List ℕ) → Option (List ℕ)
  pub decrypt : (key nonce aad sealed : List ℕ) → Option (List ℕ)
  pub hkdf_expand : (salt ikm info : List ℕ) (len : ℕ) → Option (List ℕ)

-- What the cipher documents: a tag of 16 bytes, and a frame opens under what it was sealed with.
pub record IsAead (c : Aead) : Type 0 where
  pub length_lem :
      (key nonce aad msg sealed : List ℕ)
      → c.encrypt key nonce aad msg ≡ some sealed
      → length sealed ≡ length msg + 16
  pub decrypt-encrypt :
      (key nonce aad msg sealed : List ℕ)
      → c.encrypt key nonce aad msg ≡ some sealed
      → c.decrypt key nonce aad sealed ≡ some msg

pub data ChannelError : Type 0 where
  frame_too_long : (bytes : ℕ) → ChannelError
  key_derivation_failed encryption_failed io_failed closed_reading_length closed_mid_frame :
      ChannelError
  authentication_failed out_of_fuel : ChannelError

-- A cipher is its key.
pub record ControlChannel : Type 0 where
  pub stream : TcpStream
  pub write_cipher : List ℕ
  pub read_cipher : List ℕ
  pub write_counter : ℕ
  pub read_counter : ℕ

abbrev pub max_frame : ℕ
max_frame = 0xffff

unfoldable pub nonce_for : ℕ → List ℕ
unfolding to_le_bytes
nonce_for counter = 0 ∷ 0 ∷ 0 ∷ 0 ∷ to_le_bytes 8 counter

-- `u16::from_le_bytes`.
unfoldable pub length_prefix : List ℕ → ℕ
length_prefix (l ∷ h ∷ []) = l + 256 * h
length_prefix _ = 0

-- `read_exact`.
unfoldable pub read_exact : ℕ → TcpStream → Option (List ℕ × TcpStream)
read_exact n s =
    if leb n (length s.incoming)
    then some (take n s.incoming, record s { incoming = drop n s.incoming })
    else none

abbrev pub Channel {ℓ} : Type ℓ → Type ℓ
Channel A = ControlChannel → ControlChannel × Result A ChannelError

-- `?` on what a step on the channel answers.
module _ {ℓ κ} {A : Type ℓ} {B : Type κ} where
  unfoldable pub continue_on :
      ControlChannel × Result A ChannelError
      → (A → Channel B)
      → ControlChannel × Result B ChannelError
  continue_on (ch, ok a) f = f a ch
  continue_on (ch, err e) f = (ch, err e)

module _ (c : Aead) where
  unfoldable pub cipher_from : (session_key : List ℕ) (info : Text) → Result (List ℕ) ChannelError
  cipher_from session_key info =
      ok_or (c.hkdf_expand (codes "Control-Salt") session_key info 32) key_derivation_failed

  unfoldable pub new : TcpStream → (session_key : List ℕ) → Result ControlChannel ChannelError
  unfolding cipher_from
  new stream session_key = elim (cipher_from session_key (codes "Control-Write-Encryption-Key")) [
    | err e ↦ err e
    | ok write_cipher ↦ elim (cipher_from session_key (codes "Control-Read-Encryption-Key")) [
      | err e ↦ err e
      | ok read_cipher ↦ ok (record {
        stream = stream;
        write_cipher = write_cipher;
        read_cipher = read_cipher;
        write_counter = 0;
        read_counter = 0;
      })
    ]
  ]

  -- The frame goes out in two writes.
  unfoldable pub write_frame : (len sealed : List ℕ) → Channel (Unit {0})
  write_frame len sealed ch =
      let (s1, first_done) = write_all len ch.stream in
      let (s2, second_done) = write_all sealed s1 in
      if first_done
      then (record ch { stream = s2 }, if second_done then ok tt else err io_failed)
      else (record ch { stream = s1 }, err io_failed)

  -- The counter is a u64 and wraps.
  unfoldable pub send_sealed : (len : List ℕ) → Option (List ℕ) → Channel (Unit {0})
  unfolding write_frame
  send_sealed len none ch = (ch, err encryption_failed)
  send_sealed len (some sealed) ch =
      write_frame len sealed (record ch { write_counter = (ch.write_counter + 1) % 2 ^ 64 })

  unfoldable pub send : (plaintext : List ℕ) → Channel (Unit {0})
  unfolding send_sealed to_le_bytes nonce_for
  send plaintext ch =
      let len = to_le_bytes 2 (length plaintext) in
      if ltb max_frame (length plaintext)
      then (ch, err (frame_too_long (length plaintext)))
      else send_sealed len (c.encrypt ch.write_cipher (nonce_for ch.write_counter) len plaintext) ch

  unfoldable pub opened : Option (List ℕ) → Channel (List ℕ)
  opened none ch = (ch, err authentication_failed)
  opened (some plaintext) ch =
      (record ch { read_counter = (ch.read_counter + 1) % 2 ^ 64 }, ok plaintext)

  unfoldable pub recv_sealed : (len_buf : List ℕ) → Option (List ℕ × TcpStream) → Channel (List ℕ)
  unfolding opened nonce_for to_le_bytes
  recv_sealed len_buf none ch = (ch, err closed_mid_frame)
  recv_sealed len_buf (some (sealed, s)) ch =
      opened (c.decrypt ch.read_cipher (nonce_for ch.read_counter) len_buf sealed)
        (record ch { stream = s })

  unfoldable pub recv_after : Option (List ℕ × TcpStream) → Channel (List ℕ)
  unfolding recv_sealed length_prefix read_exact
  recv_after none ch = (ch, err closed_reading_length)
  recv_after (some (len_buf, s)) ch =
      recv_sealed len_buf (read_exact (length_prefix len_buf + 16) s) (record ch { stream = s })

  unfoldable pub recv : Channel (List ℕ)
  unfolding recv_after read_exact
  recv ch = recv_after (read_exact 2 ch.stream) ch

-- Past the blank line.
unfoldable pub find_header_end : List ℕ → Option ℕ
find_header_end buf = and_then (find_subslice buf crlf_crlf) (λ i. some (i + 4))

unfoldable pub content_length : List ℕ → Option ℕ
content_length headers =
    and_then
      (find (λ l. starts_with (codes "content-length:") (map lower l))
        (lines (from_utf8_lossy headers)))
      (λ l. and_then (nth 1 (split b':' l)) (λ v. parse_number (2 ^ 64 - 1) (trim v)))

-- Whether a complete HTTP response is held.
unfoldable pub is_complete : List ℕ → Bool
unfolding find_header_end content_length
is_complete buf = elim (find_header_end buf) [
  | none ↦ false
  | some split_at ↦ leb (or_else (content_length (take split_at buf)) 0) (length buf - split_at)
]

module _ (c : Aead) where
  -- The loop; each round takes two bytes of the stream at least, so their number is fuel enough.
  unfoldable pub collect : (fuel : ℕ) (buf : List ℕ) → Channel (List ℕ)
  collect zero buf ch = (ch, err out_of_fuel)
  collect (suc fuel) buf ch = continue_on (recv c ch) λ plaintext.
      let more = collect fuel (buf ++ plaintext) in
      if is_complete (buf ++ plaintext) then (λ ch'. (ch', ok (buf ++ plaintext))) else more

  unfoldable pub request : (request : List ℕ) → Channel (List ℕ)
  unfolding collect
  request message ch =
      continue_on (send c message ch) λ _ ch'. collect (length ch'.stream.incoming + 1) [] ch'
