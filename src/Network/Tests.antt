-- ===== src/Network/Tests.antt =====
-- A server with two free slots and one session, and the theorems about slots at these.
use chatting_server_single.Common.{
  Option, ℕ, ◌+◌, ◌%◌, ◌^◌, ◌≡◌, ◌≢◌, ◌↔◌, ◌⊎◌, refl, inl, arith, replicate, [], ◌∷◌, none, some,
  ◌==◌, if◌then◌else◌,
}
use chatting_server_single.RingBuffer.{RingBuffer}
use chatting_server_single.RingBuffer as Ring
use chatting_server_single.RingBuffer.Invariant as RingInvariant
use chatting_server_single.RingBuffer.Rear.{scattered}
use chatting_server_single.Serializer.Memory.{Serializer}
use chatting_server_single.Session.{Session, increment_io}
use chatting_server_single.Network.{
  Network, make_session_id, get_index, at_slot, find_session, request_check, send_event, not_define,
  disconnect_req,
}
use chatting_server_single.Network.Ids.{make_session_id_lem}
use chatting_server_single.Network.Lookup.{Alive, Deleted, slot_of, find_session_lem}
use chatting_server_single.Network.Threads.{pending, accept_one, sended}
use chatting_server_single.Network.Lifetime.{accept_one-find_session}

abbrev ring : RingBuffer
ring = record { buffer_size = 2; max_size = 1; buffer = 0 ∷ 0 ∷ []; head_ptr = 0; tail_ptr = 0 }

abbrev slot : ℕ → ℕ → Session
slot id count = record {
  id = id;
  socket = 0;
  port = 0;
  ip = 0;
  io_count = count;
  send_flag = 0;
  cancel_io_flag = 0;
  send_buffer = 4096 ∷ [];
  sended_buffer = [];
  recv_buffer = ring;
}

-- Session 1 of slot 5, with one reference; the other slots are free.
abbrev busy : Network
busy = record {
  sessions = λ j. if j == 5 then slot (5 + 2 ^ 48) 1 else slot 0 (2 ^ 31);
  index_stack = 3 ∷ 4 ∷ [];
  session_count = 2;
  max_session = 6;
  posted = [];
  connected = [];
  disconnected = [];
  dropped = [];
}

tagged_pointer : (request_check (2 ^ 62 + 4096) ≡ send_event) × (request_check 4096 ≡ not_define)
unfolding request_check
tagged_pointer = (refl, refl)

sent_packets : sended (λ a. 10) 20 (1 ∷ 2 ∷ 3 ∷ []) ≡ some (1 ∷ 2 ∷ [], 3 ∷ [])
unfolding sended
sent_packets = refl

make_session_id_lem_example :
    (get_index (make_session_id 65537 5) ≡ 5)
    × ((make_session_id 65537 5 ≡ make_session_id 1 5)
        ↔ ((◌≡◌ {A = ℕ} 5 5) × (◌≡◌ {A = ℕ} (65537 % 2 ^ 16) (1 % 2 ^ 16))))
make_session_id_lem_example = make_session_id_lem 65537 1 5 5 (omega arith) (omega arith)

find_session_lem_example :
    ((Alive (slot_of (5 + 2 ^ 49) busy) × ((slot_of (5 + 2 ^ 49) busy).id ≡ 5 + 2 ^ 49))
      × (find_session (5 + 2 ^ 49) busy
          ≡ (at_slot (get_index (5 + 2 ^ 49)) increment_io busy, some (get_index (5 + 2 ^ 49)))))
    ⊎ ((Deleted (slot_of (5 + 2 ^ 49) busy) ⊎ ((slot_of (5 + 2 ^ 49) busy).id ≢ 5 + 2 ^ 49))
        × (find_session (5 + 2 ^ 49) busy ≡ (busy, none)))
unfolding Alive get_index
find_session_lem_example = find_session_lem (5 + 2 ^ 49) busy (inl (omega arith, omega arith))

accept_one-find_session_example :
    ((accept_one pending 40 50 60 busy).index_stack ≡ 4 ∷ [])
    × ((accept_one pending 40 50 60 busy).connected ≡ make_session_id 2 3 ∷ [])
    × (((accept_one pending 40 50 60 busy).sessions 3).io_count ≡ 1)
    × (find_session (make_session_id 2 3) (accept_one pending 40 50 60 busy)
        ≡ (at_slot 3 increment_io (accept_one pending 40 50 60 busy), some 3))
accept_one-find_session_example =
    accept_one-find_session 3 40 50 60 (4 ∷ []) busy refl refl (omega arith)

-- Half of a packet with the text 65, 66, 67 under the keys 7 and 0x32 in a ring of 16, and the
-- other half just received.
abbrev half : RingBuffer
half = record {
  buffer_size = 16;
  max_size = 15;
  buffer = 0 ∷ 0 ∷ 0 ∷ 0 ∷ 0 ∷ 0 ∷ 0 ∷ 0 ∷ 0 ∷ 0 ∷ 0 ∷ 0 ∷ 0x77 ∷ 3 ∷ 0 ∷ 7 ∷ [];
  head_ptr = 11;
  tail_ptr = 15;
}

abbrev fresh : Serializer
fresh = record {
  buffer_ptr = 4096;
  buffer_size = 12;
  head_ptr = 4096;
  tail_ptr = 4096;
  bytes = replicate 12 0;
  reference_counter = 0;
}

abbrev receiving : Network
receiving = record busy {
  sessions = λ j. record (slot (5 + 2 ^ 48) 1) {
    recv_buffer = scattered half (0xfd ∷ 0xa7 ∷ 0x3e ∷ 0xda ∷ []);
  };
}

-- Calls are counted, and each disconnects the session.
abbrev hostile : ℕ → Serializer → ℕ × Network → Option (ℕ × Network)
hostile id p (calls, net) = some (calls + 1, disconnect_req id net)
