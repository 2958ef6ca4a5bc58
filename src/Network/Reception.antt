-- ===== src/Network/Reception.antt =====
-- A reception from the bytes behind the tail of a session's ring to the calls of `OnRecv`.
use chatting_server_single.Common.{
  Option, ◌>>=◌, ℕ, ◌+◌, ◌<◌, ◌≡◌, ◌-◌, min, slice-whole, refl, ap, ◌∙◌, arith, true, ◌&&◌, ltb,
  List, ◌++◌, map, some, length, slice,
}
use chatting_server_single.RingBuffer.{RingBuffer}
use chatting_server_single.RingBuffer as Ring
use chatting_server_single.RingBuffer.Invariant as RingInvariant
use chatting_server_single.RingBuffer.Push.{push_refines}
use chatting_server_single.RingBuffer.Rear.{scattered}
use chatting_server_single.Serializer.Memory.{Serializer}
use chatting_server_single.Session.{Session, recved, increment_io}
use chatting_server_single.Session.Refused.{recved_lem}
use chatting_server_single.Session.Receiving.{Delivery}
use chatting_server_single.Session.Receiving.Opening.{observed}
use chatting_server_single.Session.Receiving.Stream.{stream_bytes, AllReady, IsPart, AllSound}
use chatting_server_single.Session.Receiving.Sealed.{
  Message, sealed_frame, AllTexts, sealed_stream-AllSound,
}
use chatting_server_single.Network.{Network, at_slot, release}
use chatting_server_single.Network.Lookup.{Alive, at_slot_here, release-kept, returned}
use chatting_server_single.Network.Lifetime.{recv_io-open}
use chatting_server_single.Network.Threads.{
  pending, Outcome, recv_io, handed, received, set_recv_buffer,
}

-- The reference of the completion goes over to the next reception.
pub recv_io-kept :
    (i : ℕ) (net : Network)
    → Alive (net.sessions i)
    → (net.sessions i).cancel_io_flag ≡ 0
    → release i (recv_io pending i net) ≡ net
unfolding Alive increment_io
recv_io-kept i net alive open_here =
    ap (release i) (recv_io-open i net open_here)
    ∙ release-kept i (at_slot i increment_io net) (omega (arith, count, alive))
        (omega (arith, count, alive))
    ∙ returned i net (omega (arith, alive))
  where
    count : ((at_slot i increment_io net).sessions i).io_count ≡ (net.sessions i).io_count + 1
    count = ap Session.io_count (at_slot_here i increment_io net) ∙ omega (arith, alive)

pub received_lem {ℓ} :
    {S : Type ℓ} (on_recv : ℕ → Serializer → S × Network → Option (S × Network)) (outcome : Outcome)
    (static_key n i : ℕ) (ms : List Message) (r : RingBuffer) (bytes rest : List ℕ)
    (pool : List Serializer) (s : S) (net : Network)
    → (net.sessions i).recv_buffer ≡ scattered r bytes
    → RingInvariant.IsValid r
    → 0 < length bytes
    → length bytes + Ring.size r < r.max_size
    → RingInvariant.contents r ++ bytes ≡ stream_bytes (map (sealed_frame static_key) ms) ++ rest
    → AllTexts n ms
    → IsPart rest
    → AllReady n pool
    → length ms < length pool
    → (r' : RingBuffer) × (deliveries : List Delivery) × (received on_recv static_key pool outcome i
          (length bytes)
          (s, net)
        ≡ (handed on_recv i deliveries (s, at_slot i (set_recv_buffer r') net) >>= λ (s', m).
            some ((s', release i (recv_io outcome i m)), deliveries)))
      × (map observed deliveries ≡ map (λ m. (true, m.text)) ms)
      × AllSound deliveries
      × (RingInvariant.contents r' ≡ rest)
      × RingInvariant.IsValid r'
unfolding received
received_lem on_recv outcome static_key n i ms r bytes rest pool s net ring v some_bytes room held
      texts part ready many =
    let (count, appended, w) = push_refines r v bytes in
    let (inbox, loop, seen, sound, over, w') =
      sealed_stream-AllSound static_key n ms rest pool (Ring.push r bytes).0 w
        (arrived count appended) texts part ready many in
    let taken : recved (length bytes) (net.sessions i).recv_buffer ≡ ((Ring.push r bytes).0, true) =
      ap (recved (length bytes)) ring
      ∙ recved_lem r bytes v (omega (arith, room))
      ∙ rw whole refl in
    (inbox.ring, inbox.deliveries, rw (taken, loop) refl, seen, sound, over, w')
  where
    whole : (ltb 0 (length bytes) && ltb (length bytes + Ring.size r) r.max_size) ≡ true
    whole = ground arith

    arrived :
        (Ring.push r bytes).1 ≡ min (length bytes) (r.max_size - Ring.size r)
        → RingInvariant.contents (Ring.push r bytes).0
          ≡ RingInvariant.contents r ++ slice bytes 0 (Ring.push r bytes).1
        → RingInvariant.contents (Ring.push r bytes).0
          ≡ stream_bytes (map (sealed_frame static_key) ms) ++ rest
    arrived count appended =
        appended
        ∙ ap (λ l. RingInvariant.contents r ++ l)
            (ap (slice bytes 0) {y = length bytes} (count ∙ omega (arith, room))
              ∙ slice-whole bytes)
        ∙ held
