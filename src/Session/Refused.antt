-- ===== src/Session/Refused.antt =====
-- Packets that are not there as a whole, sizes below zero, and receptions that are not taken over.
use chatting_server_single.Common.{
  ℕ, ◌+◌, ◌^◌, ◌≤◌, ◌<◌, ◌≡◌, ◌⊎◌, inl, inr, refl, ◌∙◌, sym, ap, arith, Bool, true, false, not,
  ◌||◌, ◌==◌, ◌&&◌, if◌then◌else◌, List, [], ◌++◌, some, length, length-append, pos, negsuc, min,
  leb, le→leb, lt→leb, ltb, int_of, int_of_small,
}
use chatting_server_single.RingBuffer.{RingBuffer}
use chatting_server_single.RingBuffer as Ring
use chatting_server_single.RingBuffer.Invariant as RingInvariant
use chatting_server_single.RingBuffer.Push as RingPush
use chatting_server_single.RingBuffer.Pop.{pop_refines}
use chatting_server_single.RingBuffer.Rear.{scattered, move_rear-scattered}
use chatting_server_single.Serializer.Memory.{Serializer, write_mem, move_front, move_rear}
use chatting_server_single.Serializer.Scalars.{nil_of_length}
use chatting_server_single.Serializer.Sealing.{header_bytes}
use chatting_server_single.Session.{recved, recved_packet, take_packet, frame_size, body_size}
use chatting_server_single.Session.Framing.{same_start, frame_size_lem}

front_lem :
    (r : RingBuffer) (h rest : List ℕ)
    → RingInvariant.IsValid r
    → length h ≡ 5
    → RingInvariant.contents r ≡ h ++ rest
    → (Ring.front r 5 ≡ h) × (Ring.size r ≡ 5 + length rest)
unfolding Ring.pop
front_lem r h rest v five held =
    let (l, c, _) = pop_refines r v 5 in
    (
      (same_start (Ring.pop r 5).1 (RingInvariant.contents (Ring.pop r 5).0) h rest (sym c ∙ held)
          (omega (arith, many, l))).0,
      many,
    )
  where
    many : Ring.size r ≡ 5 + length rest
    many = omega (arith, RingPush.length-contents r, ap length held, length-append h rest)

recved_packet-front :
    (r : RingBuffer) (p : Serializer) (h rest : List ℕ)
    → RingInvariant.IsValid r
    → length h ≡ 5
    → RingInvariant.contents r ≡ h ++ rest
    → recved_packet r p ≡ take_packet r h p
unfolding recved_packet
recved_packet-front r p h rest v five held =
    let (f, many) = front_lem r h rest v five held in
    rw (f, le→leb 5 (Ring.size r) (omega arith), five) refl

take_packet-short :
    (r : RingBuffer) (p : Serializer) (h : List ℕ)
    → Ring.size r < frame_size h
    → take_packet r h p ≡ some (false, r, p)
unfolding take_packet
take_packet-short r p h less = rw (lt→leb (frame_size h) (Ring.size r) less) refl

-- A valid ring with less than a header, or with a header and less than the body that it announces:
-- nothing is taken out, and the serializer stays as it is.
pub partial_packet_lem :
    (r : RingBuffer) (p : Serializer) (n key check : ℕ) (part : List ℕ)
    → RingInvariant.IsValid r
    → n < 2 ^ 15
    → (Ring.size r < 5)
      ⊎ ((RingInvariant.contents r ≡ header_bytes (pos n) key check ++ part) × (length part < n))
    → recved_packet r p ≡ some (false, r, p)
unfolding recved_packet
partial_packet_lem r p n key check part v short (inl few) = rw (lt→leb 5 (Ring.size r) few) refl
partial_packet_lem r p n key check part v short (inr (held, less)) =
    recved_packet-front r p (header_bytes (pos n) key check) part v refl held ∙ refused
  where
    refused : take_packet r (header_bytes (pos n) key check) p ≡ some (false, r, p)
    refused = take_packet-short r p (header_bytes (pos n) key check) (
        omega (
          arith,
          frame_size_lem n key check short,
          (front_lem r (header_bytes (pos n) key check) part v refl held).1,
        ))

take_packet-empty :
    (r : RingBuffer) (p : Serializer) (h : List ℕ)
    → frame_size h ≡ 0
    → (Ring.pop r 0).1 ≡ []
    → take_packet r h p
      ≡ some (true, (Ring.pop r 0).0, (move_front (move_rear p (body_size h)).0 (negsuc 4)).0)
unfolding take_packet write_mem
take_packet-empty r p h e f = rw (e, le→leb 0 (Ring.size r) (omega arith), f) refl

-- A header that announces a body of -5 bytes counts as a packet of no bytes: a valid ring that
-- begins with one hands over a packet and keeps all it holds, so the loop over its packets never
-- ends.
pub negative_size_lem :
    (r : RingBuffer) (p : Serializer) (key check : ℕ) (rest : List ℕ)
    → RingInvariant.IsValid r
    → RingInvariant.contents r ≡ header_bytes (negsuc 4) key check ++ rest
    → (r' : RingBuffer) × (p' : Serializer) × (recved_packet r p ≡ some (true, r', p'))
      × (RingInvariant.contents r' ≡ RingInvariant.contents r)
      × RingInvariant.IsValid r'
negative_size_lem r p key check rest v held =
    let (l, c, w) = pop_refines r v 0 in
    (
      (Ring.pop r 0).0,
      (move_front (move_rear p (negsuc 4)).0 (negsuc 4)).0,
      recved_packet-front r p (header_bytes (negsuc 4) key check) rest v refl held
          ∙ emptied (none_popped l),
      sym (ap (λ o. o ++ RingInvariant.contents (Ring.pop r 0).0) (none_popped l)) ∙ sym c,
      w,
    )
  where
    none_popped : length (Ring.pop r 0).1 ≡ min 0 (Ring.size r) → (Ring.pop r 0).1 ≡ []
    none_popped l = nil_of_length (Ring.pop r 0).1 (omega (arith, l))

    emptied :
        (Ring.pop r 0).1 ≡ []
        → take_packet r (header_bytes (negsuc 4) key check) p
          ≡ some (true, (Ring.pop r 0).0, (move_front (move_rear p (negsuc 4)).0 (negsuc 4)).0)
    emptied e = take_packet-empty r p (header_bytes (negsuc 4) key check) refl e

free_size-scattered :
    (r : RingBuffer) (bytes : List ℕ) → Ring.free_size (scattered r bytes) ≡ Ring.free_size r
unfolding Ring.free_size scattered
free_size-scattered r bytes = refl

-- On a valid ring, `transfer` bytes received behind the tail are taken over, as if they had been
-- pushed, if there are any and they leave room in the ring; if there are none, or they fill the
-- ring, they are not.
pub recved_lem :
    (r : RingBuffer) (bytes : List ℕ)
    → RingInvariant.IsValid r
    → length bytes + Ring.size r ≤ r.max_size
    → recved (length bytes) (scattered r bytes) ≡ (
        if ltb 0 (length bytes) && ltb (length bytes + Ring.size r) r.max_size
        then ((Ring.push r bytes).0, true)
        else (scattered r bytes, false))
unfolding recved
recved_lem r bytes v fits = rw (same_free, whether, as_int, moved) (choose whole)
  where
    whole : Bool
    whole = ltb 0 (length bytes) && ltb (length bytes + Ring.size r) r.max_size

    same_free : Ring.free_size (scattered r bytes) ≡ Ring.free_size r
    same_free = free_size-scattered r bytes

    whether : (leb (Ring.free_size r) (length bytes) || (length bytes == 0)) ≡ not whole
    whether = ground (arith, RingInvariant.free_size-size v)

    as_int : int_of (pos (length bytes)) ≡ pos (length bytes)
    as_int = int_of_small (length bytes) (omega (arith, RingInvariant.small v, v.mask))

    moved :
        Ring.move_rear (scattered r bytes) (pos (length bytes))
        ≡ ((Ring.push r bytes).0, pos (Ring.push r bytes).1)
    moved = move_rear-scattered r bytes v fits

    kept : RingBuffer × Bool
    kept = (scattered r bytes, false)

    pushed : RingBuffer × Bool
    pushed = ((Ring.push r bytes).0, true)

    choose : (b : Bool) → (if not b then kept else pushed) ≡ (if b then pushed else kept)
    choose true = refl
    choose false = refl
