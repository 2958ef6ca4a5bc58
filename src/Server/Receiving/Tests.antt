-- ===== src/Server/Receiving/Tests.antt =====
-- A request to move in an empty ring of 32 bytes, alone and before a packet of type 2, and the
-- theorems about receptions at these.
use chatting_server_single.Common.{
  ℕ, ◌+◌, ◌^◌, ◌≡◌, refl, inl, arith, List, [], ◌∷◌, ◌++◌, some, replicate, pos,
}
use chatting_server_single.RingBuffer.{RingBuffer}
use chatting_server_single.RingBuffer as Ring
use chatting_server_single.RingBuffer.Invariant as RingInvariant
use chatting_server_single.RingBuffer.Rear.{scattered}
use chatting_server_single.Serializer.Memory.{Serializer}
use chatting_server_single.Serializer.Cipher.{encrypt_bytes}
use chatting_server_single.Serializer.Sealing.{sum_bytes}
use chatting_server_single.Session.{Session}
use chatting_server_single.Session.Receiving.{Delivery}
use chatting_server_single.Session.Receiving.Opening.{IsReady}
use chatting_server_single.Network.{Network, at_slot}
use chatting_server_single.Network.Lookup.{Alive}
use chatting_server_single.Network.Threads.{pending, received, set_recv_buffer}
use chatting_server_single.Content.Jobs.{Job, new_user_data}
use chatting_server_single.Server.{Server}
use chatting_server_single.Server.Receiving.{on_recv_all, Request, queued}
use chatting_server_single.Server.Receiving.Reception.{moves_lem}

abbrev ring : RingBuffer
ring = record {
  buffer_size = 32;
  max_size = 31;
  buffer = replicate 32 0;
  head_ptr = 7;
  tail_ptr = 7;
}

ring-IsValid : RingInvariant.IsValid ring
ring-IsValid = record {
  exponent = 5;
  power = refl;
  narrow = omega arith;
  two = omega arith;
  mask = refl;
  storage = refl;
  head_in = omega arith;
  tail_in = omega arith;
}

abbrev session : Session
session = record {
  id = 5 + 2 ^ 48;
  socket = 0;
  port = 0;
  ip = 0;
  io_count = 1;
  send_flag = 0;
  cancel_io_flag = 0;
  send_buffer = [];
  sended_buffer = [];
  recv_buffer = ring;
}

abbrev busy : Network
busy = record {
  sessions = λ j. session;
  index_stack = 3 ∷ 4 ∷ [];
  session_count = 2;
  max_session = 6;
  posted = [];
  connected = [];
  disconnected = [];
  dropped = [];
}

abbrev request : Request
request = record { random_key = 7; account = 513; x = 3; y = 4 }

abbrev sealed : List ℕ
sealed =
    119 ∷ 14 ∷ 0 ∷ 7 ∷ 54 ∷ 103 ∷ 139 ∷ 226 ∷ 52 ∷ 86 ∷ 199 ∷ 86 ∷ 246 ∷ 74 ∷ 13 ∷ 213 ∷ 166 ∷ 37
    ∷ 191 ∷ []

abbrev with_unknown : List ℕ
with_unknown = sealed ++ 119 ∷ 2 ∷ 0 ∷ 9 ∷ 59 ∷ 126 ∷ 174 ∷ []

abbrev one_received : Network
one_received = record busy {
  sessions = λ j. record session { recv_buffer = scattered ring sealed };
}

abbrev two_received : Network
two_received = record busy {
  sessions = λ j. record session { recv_buffer = scattered ring with_unknown };
}

abbrev empty : Serializer
empty = record {
  buffer_ptr = 4096;
  buffer_size = 32;
  head_ptr = 4096;
  tail_ptr = 4096;
  bytes = replicate 32 0;
  reference_counter = 0;
}

empty-IsReady : IsReady 14 empty
empty-IsReady = (omega arith, omega arith)

abbrev fresh : List Job → Job
fresh jobs = record {
  id = new_user_data;
  target_id = 0;
  account_no = 0;
  content_id = [];
  content_nickname = [];
  session_key = [];
  sector_x = pos 0;
  sector_y = pos 0;
  message = [];
  msg_len = pos 0;
}

abbrev idle : Server
idle = record { job_queue = []; disconnected = [] }

moves_lem_example :
    (r' : RingBuffer) × (deliveries : List Delivery) × (received
        (on_recv_all fresh)
        0x32
        (empty ∷ empty ∷ [])
        pending
        5
        19
        (idle, one_received)
      ≡ some (
        (
          record idle { job_queue = queued fresh (5 + 2 ^ 48) (request ∷ []) [] },
          at_slot 5 (set_recv_buffer r') one_received,
        ),
        deliveries,
      ))
    × (RingInvariant.contents r' ≡ [])
    × RingInvariant.IsValid r'
unfolding Alive RingInvariant.contents Ring.size encrypt_bytes sum_bytes
moves_lem_example =
    moves_lem fresh 0x32 14 5 (request ∷ []) ring sealed [] (empty ∷ empty ∷ []) idle one_received
      (omega arith, omega arith) refl refl ring-IsValid (omega arith) (omega arith) refl
      (omega arith, omega arith, omega arith, tt) (omega arith, omega arith, omega arith, tt)
      (inl (omega arith)) (empty-IsReady, (empty-IsReady, tt)) (omega arith)
