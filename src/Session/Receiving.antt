-- ===== src/Session/Receiving.antt =====
-- The loop of `Network::workerThread` (network.cpp) over the packets that a reception completed.
-- The serializers that `serializerAlloc` hands out are a list; where they run out the result is
-- `none`, as it is for an access outside of a serializer. The thread's counter of messages and the
-- return of a serializer to its pool are left out.
pub mod Opening
pub mod Stream
pub mod Sealed
mod Tests
use chatting_server_single.Common.{
  ℕ, Bool, true, false, List, [], ◌∷◌, Option, none, some, ◌>>=◌, if◌then◌else◌, pos,
}
use chatting_server_single.RingBuffer.{RingBuffer}
use chatting_server_single.Serializer.{read_fields}
use chatting_server_single.Serializer.Memory.{
  Serializer, clear, move_front, move_rear, inc_reference_counter,
}
use chatting_server_single.Serializer.Sealing.{decryption}
use chatting_server_single.Session.{recved_packet}

-- One call of `OnRecv`: the packet as it is handed over, and whether its checksum came out right.
-- If not, `disconnectReq` was called for the session before.
pub record Delivery : Type 0 where
  pub accepted : Bool
  pub packet : Serializer

-- What is left in the ring, and the calls of `OnRecv` in their order.
pub record Inbox : Type 0 where
  pub ring : RingBuffer
  pub deliveries : List Delivery

-- A serializer from the pool, referenced, empty, behind the place of the header.
unfoldable pub prepared : Serializer → Serializer
unfolding clear move_front move_rear inc_reference_counter
prepared fresh =
    (move_front (move_rear (clear (inc_reference_counter fresh 1).0) (pos 5)).0 (pos 5)).0

-- Code, size and key are read over, then the checksum, if it is right.
unfoldable pub open_packet : ℕ → Serializer → Option Delivery
open_packet static_key p = do
  (_, p1) ← read_fields (1 ∷ 2 ∷ 1 ∷ []) p
  (ok, p2) ← decryption static_key p1
  if ok
      then read_fields (1 ∷ []) p2 >>= (λ (_, p3). some (record { accepted = true; packet = p3 }))
      else some (record { accepted = false; packet = p2 })

unfoldable pub receive_packets : ℕ → List Serializer → RingBuffer → Option Inbox
receive_packets static_key [] r = none
receive_packets static_key (fresh ∷ pool) r = recved_packet r (prepared fresh) >>= λ (took, r', p).
    elim took [
      | false ↦ some (record { ring = r'; deliveries = [] })
      | true ↦ do
        delivery ← open_packet static_key p
        rest ← receive_packets static_key pool r'
        some (record rest { deliveries = delivery ∷ rest.deliveries })
    ]
