-- ===== src/Session/Tests.antt =====
-- Two packets in a ring of 32 bytes, and the theorems about receptions at these.
use chatting_server_single.Common.{
  ◌+◌, ◌≡◌, refl, arith, true, false, [], ◌∷◌, ◌++◌, some, slice, replicate, pos,
}
use chatting_server_single.RingBuffer.{RingBuffer}
use chatting_server_single.RingBuffer as Ring
use chatting_server_single.RingBuffer.Invariant as RingInvariant
use chatting_server_single.RingBuffer.Rear.{scattered}
use chatting_server_single.Serializer.Memory.{Serializer, read_mem, write_mem, move_front}
use chatting_server_single.Serializer.Invariant.{IsValid}
use chatting_server_single.Serializer.Cipher.{encrypt_bytes}
use chatting_server_single.Serializer.Sealing.{
  header_bytes, sum_bytes, set_header, encryption, decryption,
}
use chatting_server_single.Session.{recved, recved_packet}
use chatting_server_single.Session.Framing.{recved_packet_lem}
use chatting_server_single.Session.Delivery.{sealed_delivery_lem}
use chatting_server_single.Session.Refused.{negative_size_lem, recved_lem}

-- A packet with the body 65, 66, and the beginning of another one, round the end of the ring.
abbrev stream : RingBuffer
stream = record {
  buffer_size = 16;
  max_size = 15;
  buffer = 9 ∷ 65 ∷ 66 ∷ 0x77 ∷ 3 ∷ 0 ∷ 0 ∷ 0 ∷ 0 ∷ 0 ∷ 0 ∷ 0 ∷ 0x77 ∷ 2 ∷ 0 ∷ 8 ∷ [];
  head_ptr = 11;
  tail_ptr = 5;
}

abbrev backwards : RingBuffer
backwards = record stream {
  buffer = 9 ∷ 65 ∷ 66 ∷ 0x77 ∷ 3 ∷ 0 ∷ 0 ∷ 0 ∷ 0 ∷ 0 ∷ 0 ∷ 0 ∷ 0x77 ∷ 0xfb ∷ 0xff ∷ 8 ∷ [];
}

-- Only the second header.
abbrev begun : RingBuffer
begun = record stream { head_ptr = 2 }

stream-IsValid : RingInvariant.IsValid stream
stream-IsValid = record {
  exponent = 4;
  power = refl;
  narrow = omega arith;
  two = omega arith;
  mask = refl;
  storage = refl;
  head_in = omega arith;
  tail_in = omega arith;
}

backwards-IsValid : RingInvariant.IsValid backwards
backwards-IsValid = record {
  exponent = 4;
  power = refl;
  narrow = omega arith;
  two = omega arith;
  mask = refl;
  storage = refl;
  head_in = omega arith;
  tail_in = omega arith;
}

begun-IsValid : RingInvariant.IsValid begun
begun-IsValid = record {
  exponent = 4;
  power = refl;
  narrow = omega arith;
  two = omega arith;
  mask = refl;
  storage = refl;
  head_in = omega arith;
  tail_in = omega arith;
}

abbrev opened : Serializer
opened = record {
  buffer_ptr = 4096;
  buffer_size = 12;
  head_ptr = 4101;
  tail_ptr = 4101;
  bytes = replicate 12 0;
  reference_counter = 1;
}

opened-IsValid : IsValid opened
opened-IsValid = omega arith

recved_packet_lem_example :
    (p' : Serializer) × (recved_packet stream opened ≡ some (true, (Ring.pop stream 7).0, p'))
    × (RingInvariant.contents (Ring.pop stream 7).0 ≡ 0x77 ∷ 3 ∷ 0 ∷ [])
    × (slice p'.bytes 0 7 ≡ header_bytes (pos 2) 8 9 ++ 65 ∷ 66 ∷ [])
    × (p'.head_ptr ≡ p'.buffer_ptr)
    × (p'.tail_ptr ≡ p'.buffer_ptr + 7)
    × IsValid p'
unfolding RingInvariant.contents Ring.size
recved_packet_lem_example =
    recved_packet_lem stream opened 2 8 9 (65 ∷ 66 ∷ []) (0x77 ∷ 3 ∷ 0 ∷ []) stream-IsValid
      opened-IsValid (refl, refl) (omega arith) (omega arith) refl refl

negative_size_lem_example :
    (r' : RingBuffer) × (p' : Serializer) × (recved_packet backwards opened ≡ some (true, r', p'))
    × (RingInvariant.contents r' ≡ RingInvariant.contents backwards)
    × RingInvariant.IsValid r'
unfolding RingInvariant.contents Ring.size
negative_size_lem_example =
    negative_size_lem backwards opened 8 9 (65 ∷ 66 ∷ 0x77 ∷ 3 ∷ 0 ∷ []) backwards-IsValid refl

-- Five bytes more fill the ring of fifteen, and are refused.
recved_lem_example :
    recved 5 (scattered stream (1 ∷ 2 ∷ 3 ∷ 4 ∷ 5 ∷ []))
    ≡ (scattered stream (1 ∷ 2 ∷ 3 ∷ 4 ∷ 5 ∷ []), false)
unfolding Ring.size
recved_lem_example = recved_lem stream (1 ∷ 2 ∷ 3 ∷ 4 ∷ 5 ∷ []) stream-IsValid (omega arith)

-- The packet that the serializer with the body 65, 66, 67 is sealed to under the keys 7 and 0x32.
abbrev wired : RingBuffer
wired = record stream {
  buffer = 0xfd ∷ 0xa7 ∷ 0x3e ∷ 0xda ∷ 0 ∷ 0 ∷ 0 ∷ 0 ∷ 0 ∷ 0 ∷ 0 ∷ 0 ∷ 0x77 ∷ 3 ∷ 0 ∷ 7 ∷ [];
  tail_ptr = 3;
}

wired-IsValid : RingInvariant.IsValid wired
wired-IsValid = record {
  exponent = 4;
  power = refl;
  narrow = omega arith;
  two = omega arith;
  mask = refl;
  storage = refl;
  head_in = omega arith;
  tail_in = omega arith;
}

abbrev unsealed : Serializer
unsealed = record {
  buffer_ptr = 8192;
  buffer_size = 8;
  head_ptr = 8197;
  tail_ptr = 8200;
  bytes = 0 ∷ 0 ∷ 0 ∷ 0 ∷ 0 ∷ 65 ∷ 66 ∷ 67 ∷ [];
  reference_counter = 1;
}

unsealed-IsValid : IsValid unsealed
unsealed-IsValid = omega arith

abbrev sealed : Serializer
sealed = record unsealed {
  head_ptr = 8192;
  bytes = 0x77 ∷ 3 ∷ 0 ∷ 7 ∷ 0xfd ∷ 0xa7 ∷ 0x3e ∷ 0xda ∷ [];
}

sealed_delivery_lem_example :
    (r' : RingBuffer) × (p' : Serializer) × (p'' : Serializer) × (recved_packet wired opened
      ≡ some (true, r', p'))
    × (RingInvariant.contents r' ≡ [])
    × (decryption 0x32 p' ≡ some (true, p''))
    × (slice p''.bytes 5 3 ≡ 65 ∷ 66 ∷ 67 ∷ [])
unfolding RingInvariant.contents Ring.size encrypt_bytes sum_bytes set_header encryption read_mem
    write_mem move_front
sealed_delivery_lem_example =
    sealed_delivery_lem unsealed sealed 3 7 0x32 wired opened [] unsealed-IsValid refl (omega arith)
      (omega arith) refl wired-IsValid refl opened-IsValid (refl, refl) (omega arith)
