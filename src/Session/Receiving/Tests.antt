-- ===== src/Session/Receiving/Tests.antt =====
-- A ring with one packet and the code of a second one, and the theorems about the loop at it.
use chatting_server_single.Common.{◌≡◌, refl, inl, arith, [], ◌∷◌, map, some, replicate}
use chatting_server_single.RingBuffer.{RingBuffer}
use chatting_server_single.RingBuffer as Ring
use chatting_server_single.RingBuffer.Invariant as RingInvariant
use chatting_server_single.Serializer.Memory.{Serializer}
use chatting_server_single.Serializer.Invariant.{IsValid}
use chatting_server_single.Session.Receiving.{Inbox, receive_packets}
use chatting_server_single.Session.Receiving.Opening.{observed}
use chatting_server_single.Session.Receiving.Stream.{Frame, decoded, stream_lem}

abbrev stream : RingBuffer
stream = record {
  buffer_size = 16;
  max_size = 15;
  buffer = 0xfd ∷ 0xa7 ∷ 0x3e ∷ 0xda ∷ 0x77 ∷ 0 ∷ 0 ∷ 0 ∷ 0 ∷ 0 ∷ 0 ∷ 0 ∷ 0x77 ∷ 3 ∷ 0 ∷ 7 ∷ [];
  head_ptr = 11;
  tail_ptr = 4;
}

stream-IsValid : RingInvariant.IsValid stream
stream-IsValid = record {
  exponent = 4;
  power = refl;
  narrow = omega arith;
  two = omega arith;
  mask = refl;
  storage = refl;
  head_in = omega arith;
  tail_in = omega arith;
}

abbrev fresh : Serializer
fresh = record {
  buffer_ptr = 4096;
  buffer_size = 12;
  head_ptr = 4096;
  tail_ptr = 4096;
  bytes = replicate 12 0;
  reference_counter = 0;
}

fresh-IsValid : IsValid fresh
fresh-IsValid = omega arith

abbrev first : Frame
first = record { key = 7; check = 0xfd; body = 0xa7 ∷ 0x3e ∷ 0xda ∷ [] }

stream_lem_example :
    (inbox : Inbox) × (receive_packets 0x32 (fresh ∷ fresh ∷ []) stream ≡ some inbox)
    × (map observed inbox.deliveries ≡ map (decoded 0x32) (first ∷ []))
    × (RingInvariant.contents inbox.ring ≡ 0x77 ∷ [])
    × RingInvariant.IsValid inbox.ring
unfolding RingInvariant.contents Ring.size
stream_lem_example =
    stream_lem 0x32 3 (first ∷ []) (0x77 ∷ []) (fresh ∷ fresh ∷ []) stream stream-IsValid refl
      (omega arith, omega arith, tt) (inl (omega arith))
      ((fresh-IsValid, omega arith), ((fresh-IsValid, omega arith), tt)) (omega arith)
