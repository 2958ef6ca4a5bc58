-- ===== src/Session/Delivery.antt =====
-- A sealed packet on its way from the ring through `recvedPacket` and `decryption`.
use chatting_server_single.Common.{
  ℕ, ◌+◌, ◌^◌, ◌≤◌, ◌<◌, ◌≡◌, sym, ap, ◌∙◌, arith, true, List, [], ◌∷◌, ◌++◌, some, ◌>>=◌, AllBytes,
  length, get_or, slice, slice-add, length-slice, get_or-tabulate, pos,
}
use chatting_server_single.RingBuffer.{RingBuffer}
use chatting_server_single.RingBuffer as Ring
use chatting_server_single.RingBuffer.Invariant as RingInvariant
use chatting_server_single.Serializer.Memory.{Serializer}
use chatting_server_single.Serializer.Invariant.{IsValid}
use chatting_server_single.Serializer.Cipher.{encrypt_bytes, length-encrypt_bytes}
use chatting_server_single.Serializer.Sealing.{
  header_size, header_bytes, sum_bytes, set_header, encryption, decryption,
}
use chatting_server_single.Serializer.Sealing.Headed.{sealing_wire}
use chatting_server_single.Serializer.Sealing.Opened.{IsHeaded}
use chatting_server_single.Serializer.Sealing.Received.{decryption-received}
use chatting_server_single.Session.{recved_packet}
use chatting_server_single.Session.Framing.{same_start, recved_packet_lem}

get_or-slice : (b : List ℕ) (n i : ℕ) → i < n → get_or (slice b 0 n) i 0 ≡ get_or b i 0
get_or-slice b n i h =
    get_or-tabulate n (λ k. get_or b (0 + k) 0) i 0 h ∙ ap (λ j. get_or b j 0) (omega arith)

module _ (p : Serializer) (n key e : ℕ) (es : List ℕ) (w : IsValid p) (short : n < 2 ^ 15)
    (tail : p.tail_ptr ≡ p.buffer_ptr + (5 + n)) (sized : length es ≡ n)
    (frame : slice p.bytes 0 (5 + n) ≡ header_bytes (pos n) key e ++ es) where
  field : (i : ℕ) → i < 5 → get_or p.bytes i 0 ≡ get_or (header_bytes (pos n) key e ++ es) i 0
  field i h = sym (get_or-slice p.bytes (5 + n) i (omega arith)) ∙ ap (λ l. get_or l i 0) frame

  pub received-IsHeaded : IsHeaded p n key
  received-IsHeaded = record {
    tail_at = tail;
    short = short;
    room = omega (arith, w.tail_high, w.block, tail);
    addressed = omega (arith, w.addressed, w.block);
    size_field = omega (arith, field 1 (omega arith), field 2 (omega arith), short);
    key_field = field 3 (omega arith);
  }

  pub received_wire : slice p.bytes 4 (n + 1) ≡ e ∷ es
  received_wire =
      (same_start (slice p.bytes 0 4) (slice p.bytes 4 (n + 1))
        (get_or (header_bytes (pos n) key e) 0 0
          ∷ get_or (header_bytes (pos n) key e) 1 0
          ∷ get_or (header_bytes (pos n) key e) 2 0
          ∷ key
          ∷ [])
        (e ∷ es)
        (sym (slice-add p.bytes 0 4 (n + 1))
          ∙ ap (slice p.bytes 0) {x = 4 + (n + 1)} {y = 5 + n} (omega arith)
          ∙ frame)
        (omega (arith, length-slice p.bytes 0 4))).1

-- A valid ring begins with a packet as `setHeader` and `encryption` write it: the header, whose
-- last byte is the first one of the cipher, and the cipher of the checksum and of a body of `n` < 2
-- ^ 15 bytes. A valid serializer was cleared and opened behind the place of the header, and has
-- room. Then `recvedPacket` takes exactly this packet out of the ring, `decryption` with the same
-- static key accepts it, and the body is there behind the header.
pub delivery_lem :
    (r : RingBuffer) (p : Serializer) (n key static_key e : ℕ) (es body rest : List ℕ)
    → RingInvariant.IsValid r
    → IsValid p
    → (p.head_ptr ≡ p.buffer_ptr + 5) × (p.tail_ptr ≡ p.buffer_ptr + 5)
    → 5 + n ≤ p.buffer_size
    → n < 2 ^ 15
    → length body ≡ n
    → AllBytes body
    → e ∷ es ≡ encrypt_bytes key static_key 0 0 0 (sum_bytes 0 body ∷ body)
    → RingInvariant.contents r ≡ (header_bytes (pos n) key e ++ es) ++ rest
    → (r' : RingBuffer) × (p' : Serializer) × (p'' : Serializer) × (recved_packet r p
        ≡ some (true, r', p'))
      × (RingInvariant.contents r' ≡ rest)
      × (decryption static_key p' ≡ some (true, p''))
      × (slice p''.bytes 5 n ≡ body)
delivery_lem r p n key static_key e es body rest v w opened room short sized all wire held =
    let (p', taken, left, frame, _, tail, w') =
      recved_packet_lem r p n key e es rest v w opened room short length_es held in
    let (decrypted, there) =
      decryption-received p' n key static_key body
        (received-IsHeaded p' n key e es w' short tail length_es frame) sized all
        (received_wire p' n key e es w' short tail length_es frame ∙ wire) in
    ((Ring.pop r (5 + n)).0, p', _, taken, left, decrypted, there)
  where
    length_es : length es ≡ n
    length_es = omega (
      arith,
      sized,
      ap length wire,
      length-encrypt_bytes key static_key 0 0 0 (sum_bytes 0 body ∷ body),
    )

-- What `setHeader` and `encryption` make of a valid packet with a payload of `n` < 2 ^ 15 bytes
-- behind the place of its header arrives: if a valid ring begins with the bytes of the sealed
-- packet, and a valid serializer was cleared and opened behind the place of the header, and has
-- room, then `recvedPacket` takes exactly this packet out of the ring, `decryption` with the same
-- static key accepts it, and the payload is the one that was sealed.
pub sealed_delivery_lem :
    (s s1 : Serializer) (n key static_key : ℕ) (r : RingBuffer) (p : Serializer) (rest : List ℕ)
    → IsValid s
    → s.tail_ptr ≡ s.buffer_ptr + (header_size + n)
    → n < 2 ^ 15
    → AllBytes (slice s.bytes header_size n)
    → (set_header key s >>= encryption static_key) ≡ some s1
    → RingInvariant.IsValid r
    → RingInvariant.contents r ≡ slice s1.bytes 0 (header_size + n) ++ rest
    → IsValid p
    → (p.head_ptr ≡ p.buffer_ptr + 5) × (p.tail_ptr ≡ p.buffer_ptr + 5)
    → 5 + n ≤ p.buffer_size
    → (r' : RingBuffer) × (p' : Serializer) × (p'' : Serializer) × (recved_packet r p
        ≡ some (true, r', p'))
      × (RingInvariant.contents r' ≡ rest)
      × (decryption static_key p' ≡ some (true, p''))
      × (slice p''.bytes header_size n ≡ slice s.bytes header_size n)
sealed_delivery_lem s s1 n key static_key r p rest vs written short all sealed v held w opened
      room =
    let (e, es, wire, bytes) = sealing_wire s vs n key static_key written short s1 sealed in
    delivery_lem r p n key static_key e es (slice s.bytes header_size n) rest v w opened room short
      (length-slice s.bytes header_size n) all wire
      (held
        ∙ ap (λ l. l ++ rest)
            (ap (slice s1.bytes 0) {x = header_size + n} {y = 4 + (n + 1)} (omega arith) ∙ bytes))
