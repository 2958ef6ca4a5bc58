-- ===== src/Session/Receiving/Sealed.antt =====
-- The loop over packets that were sealed with the same static key.
use chatting_server_single.Common.{
  ℕ, ◌+◌, ◌^◌, ◌≤◌, ◌<◌, ◌≡◌, refl, ap, ap₂, ◌∙◌, arith, ◌>>=◌, true, List, [], ◌∷◌, ◌++◌, map,
  length-map, some, AllBytes, length, slice, length-slice, pos,
}
use chatting_server_single.RingBuffer.{RingBuffer}
use chatting_server_single.RingBuffer.Invariant as RingInvariant
use chatting_server_single.Serializer.Memory.{Serializer}
use chatting_server_single.Serializer.Invariant.{IsValid}
use chatting_server_single.Serializer.Cipher.{
  encrypt_bytes, decrypt_bytes, length-encrypt_bytes, decrypt_bytes-encrypt_bytes,
}
use chatting_server_single.Serializer.Sealing.{
  header_size, header_bytes, sum_bytes, set_header, encryption,
}
use chatting_server_single.Serializer.Sealing.Checksum.{checksum_lem}
use chatting_server_single.Serializer.Sealing.Headed.{sealing_wire}
use chatting_server_single.Session.Receiving.{Inbox, receive_packets}
use chatting_server_single.Session.Receiving.Opening.{verdict, observed}
use chatting_server_single.Session.Receiving.Stream.{
  Frame, frame_bytes, stream_bytes, AllShort, AllReady, IsPart, decoded, AllSound, stream-AllSound,
}

-- What was sent: a body, and the random key that it was sealed with.
pub record Message : Type 0 where
  pub random_key : ℕ
  pub text : List ℕ

abbrev framed : ℕ → List ℕ → Frame
framed key [] = record { key = key; check = 0; body = [] }
framed key (e ∷ es) = record { key = key; check = e; body = es }

abbrev pub cipher : ℕ → Message → List ℕ
cipher static_key m = encrypt_bytes m.random_key static_key 0 0 0 (sum_bytes 0 m.text ∷ m.text)

-- The frame that a message is sealed to.
abbrev pub sealed_frame : ℕ → Message → Frame
sealed_frame static_key m = framed m.random_key (cipher static_key m)

abbrev pub AllTexts : ℕ → List Message → Type 0
AllTexts n [] = Unit
AllTexts n (m ∷ ms) =
    AllBytes m.text × (length m.text < 2 ^ 15) × (length m.text ≤ n) × AllTexts n ms

length-sealed_frame :
    (static_key : ℕ) (m : Message) → length (sealed_frame static_key m).body ≡ length m.text
unfolding encrypt_bytes
length-sealed_frame static_key m = length-encrypt_bytes m.random_key static_key 1 _ _ m.text

whole :
    (static_key : ℕ) (m : Message)
    → (sealed_frame static_key m).check ∷ (sealed_frame static_key m).body ≡ cipher static_key m
unfolding encrypt_bytes
whole static_key m = refl

accepted_lem :
    (static_key : ℕ) (m : Message)
    → AllBytes m.text
    → decoded static_key (sealed_frame static_key m) ≡ (true, m.text)
unfolding encrypt_bytes
accepted_lem static_key m all =
    ap verdict (ap (decrypt_bytes m.random_key static_key 0 0 0) (whole static_key m) ∙ plain)
    ∙ rw (checksum_lem m.text all) refl
  where
    plain :
        decrypt_bytes m.random_key static_key 0 0 0 (cipher static_key m)
        ≡ sum_bytes 0 m.text ∷ m.text
    plain = decrypt_bytes-encrypt_bytes m.random_key static_key 0 0 0 (sum_bytes 0 m.text ∷ m.text)

texts-short :
    (static_key n : ℕ) (ms : List Message)
    → AllTexts n ms
    → AllShort n (map (sealed_frame static_key) ms)
texts-short static_key n [] h = tt
texts-short static_key n (m ∷ ms) (_, short, fits, more) = (
  rw (length-sealed_frame static_key m) short,
  rw (length-sealed_frame static_key m) fits,
  texts-short static_key n ms more,
)

accepted_all :
    (static_key n : ℕ) (ms : List Message)
    → AllTexts n ms
    → map (decoded static_key) (map (sealed_frame static_key) ms) ≡ map (λ m. (true, m.text)) ms
accepted_all static_key n [] h = refl
accepted_all static_key n (m ∷ ms) (all, _, _, more) =
    ap₂ ◌∷◌ (accepted_lem static_key m all) (accepted_all static_key n ms more)

-- What `setHeader` and `encryption` make of a valid packet with a payload of `n` < 2 ^ 15 bytes
-- behind the place of its header is the frame of this payload.
pub sealing-sealed_frame :
    (s s1 : Serializer) (n key static_key : ℕ)
    → IsValid s
    → s.tail_ptr ≡ s.buffer_ptr + (header_size + n)
    → n < 2 ^ 15
    → (set_header key s >>= encryption static_key) ≡ some s1
    → slice s1.bytes 0 (header_size + n)
      ≡ frame_bytes (
          sealed_frame static_key (record { random_key = key; text = slice s.bytes header_size n }))
sealing-sealed_frame s s1 n key static_key v written short sealed =
    let (e, es, wire, bytes) = sealing_wire s v n key static_key written short s1 sealed in
    ap (slice s1.bytes 0) {x = header_size + n} {y = 4 + (n + 1)} (omega arith)
    ∙ bytes
    ∙ ap (λ k. header_bytes (pos k) key e ++ es) (omega (arith, ap length wire, whole_length))
    ∙ ap (λ l. frame_bytes (framed key l)) wire
  where
    whole_length :
        length (
          encrypt_bytes key static_key 0 0 0
            (sum_bytes 0 (slice s.bytes header_size n) ∷ slice s.bytes header_size n))
        ≡ n + 1
    whole_length =
        length-encrypt_bytes key static_key 0 0 0
          (sum_bytes 0 (slice s.bytes header_size n) ∷ slice s.bytes header_size n)
        ∙ omega (arith, length-slice s.bytes header_size n)

-- A valid ring holds messages, each sealed with its own random key and the static key, one behind
-- the other, and the beginning of a further packet. With more ready serializers than messages the
-- loop ends, `OnRecv` was called with the text of every message, accepted, in the order in which
-- they were sent, and only the beginning is left in the ring. The packets are valid.
pub sealed_stream-AllSound :
    (static_key n : ℕ) (ms : List Message) (rest : List ℕ) (pool : List Serializer) (r : RingBuffer)
    → RingInvariant.IsValid r
    → RingInvariant.contents r ≡ stream_bytes (map (sealed_frame static_key) ms) ++ rest
    → AllTexts n ms
    → IsPart rest
    → AllReady n pool
    → length ms < length pool
    → (inbox : Inbox) × (receive_packets static_key pool r ≡ some inbox)
      × (map observed inbox.deliveries ≡ map (λ m. (true, m.text)) ms)
      × AllSound inbox.deliveries
      × (RingInvariant.contents inbox.ring ≡ rest)
      × RingInvariant.IsValid inbox.ring
sealed_stream-AllSound static_key n ms rest pool r v held texts part ready many =
    let (inbox, e, verdicts, sound, over, w) =
      stream-AllSound static_key n (map (sealed_frame static_key) ms) rest pool r v held
        (texts-short static_key n ms texts) part ready
        (omega (arith, many, length-map (sealed_frame static_key) ms)) in
    (inbox, e, verdicts ∙ accepted_all static_key n ms texts, sound, over, w)
