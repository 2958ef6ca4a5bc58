-- ===== src/Session.antt =====
-- lib/IOCP netServer/session.h and session.cpp: one connection. A packet is known by the address of
-- its serializer; `send_buffer`, a lock-free queue, and `sended_buffer`, a ring of pointers, are
-- lists of addresses. What the socket answers is an argument; logging is left out.
pub mod Framing
pub mod Refused
pub mod Delivery
pub mod Receiving
mod Tests
use chatting_server_single.Common.{
  ℕ, ◌+◌, ◌-◌, ◌*◌, ◌%◌, ◌^◌, ◌≤◌, Bool, true, false, ◌&&◌, ◌||◌, List, [], ◌∷◌, ◌++◌, Option, none,
  some, ◌>>=◌, ltb, leb, ◌==◌, if◌then◌else◌, u32, u64, get_or, length, ℤ, pos, negsuc, pattern_of,
  int_of,
}
use chatting_server_single.RingBuffer.{RingBuffer}
use chatting_server_single.RingBuffer as Ring
use chatting_server_single.Serializer.Memory.{Serializer, write_mem, move_front, move_rear}
use chatting_server_single.Serializer.Sealing.{header_size, signed16}

-- `io_count` and the flags are bit patterns.
pub record Session : Type 0 where
  pub id : ℕ
  pub socket : ℕ
  pub port : ℕ
  pub ip : ℕ
  pub io_count : ℕ
  pub send_flag : ℕ
  pub cancel_io_flag : ℕ
  pub send_buffer : List ℕ
  pub sended_buffer : List ℕ
  pub recv_buffer : RingBuffer

unfoldable pub increment_io : Session → Session
increment_io s = record s { io_count = u32 (s.io_count + 1) }

unfoldable pub decrement_io : Session → Session
decrement_io s = record s { io_count = u32 (s.io_count + 2 ^ 32 - 1) }

-- A new connection: one reference, and the mark of a deleted session, the highest bit, taken off.
unfoldable pub init : ℕ → ℕ → ℕ → ℕ → Session → Session
unfolding increment_io
init id socket port ip s = record (increment_io s) {
  id = id;
  socket = socket;
  port = port;
  ip = ip;
  send_flag = 0;
  cancel_io_flag = 0;
  io_count = (increment_io s).io_count % 2 ^ 31;
}

unfoldable pub cancel_io_regist : Session → Session
cancel_io_regist s = record s { cancel_io_flag = 1 }

unfoldable pub has_cancel_io_flag : Session → Bool
has_cancel_io_flag s = s.cancel_io_flag == 1

-- `send_buffer` has a pool of 256 nodes, of which one is its dummy.
abbrev send_capacity : ℕ
send_capacity = 255

-- False, and the packet not taken, when the pool has no node left.
unfoldable pub collect_send_packet : ℕ → Session → Session × Bool
collect_send_packet address s =
    if ltb (length s.send_buffer) send_capacity
    then (record s { send_buffer = s.send_buffer ++ address ∷ [] }, true)
    else (s, false)

-- The packets that are given up, and the session with empty buffers.
unfoldable pub buffer_clear : Session → Session × List ℕ
unfolding Ring.clear
buffer_clear s = (
  record s { send_buffer = []; sended_buffer = []; recv_buffer = Ring.clear s.recv_buffer },
  s.send_buffer ++ s.sended_buffer,
)

-- `transfer` bytes were received behind the tail. False if there were none, or not less than the
-- free room: then the bytes are not taken over.
unfoldable pub recved : ℕ → RingBuffer → RingBuffer × Bool
recved transfer r =
    if leb (Ring.free_size r) transfer || transfer == 0
    then (r, false)
    else ((Ring.move_rear r (int_of (pos transfer))).0, true)

-- The number of bytes that a header announces with itself: `sizeof(networkHeader) + h.size`, where
-- the `short` becomes a `size_t`.
abbrev pub frame_size : List ℕ → ℕ
frame_size h = u64 (header_size + pattern_of 64 (signed16 (get_or h 1 0 + 2 ^ 8 * get_or h 2 0)))

-- The number in the size field of a header.
abbrev pub body_size : List ℕ → ℤ
body_size h = signed16 (get_or h 1 0 + 2 ^ 8 * get_or h 2 0)

-- The packet behind header `h`, popped into the buffer of `p`, if it is there as a whole.
unfoldable pub take_packet :
    RingBuffer → List ℕ → Serializer → Option (Bool × RingBuffer × Serializer)
unfolding Ring.size Ring.pop
take_packet r h p =
    if leb (frame_size h) (Ring.size r)
    then write_mem p p.buffer_ptr (Ring.pop r (frame_size h)).1 >>= (λ p'. some (
      true,
      (Ring.pop r (frame_size h)).0,
      (move_front (move_rear p' (body_size h)).0 (negsuc 4)).0,
    ))
    else some (false, r, p)

-- One packet out of the ring into the buffer of `p`. False, and nothing moved, as long as the
-- packet is not there as a whole.
unfoldable pub recved_packet : RingBuffer → Serializer → Option (Bool × RingBuffer × Serializer)
unfolding Ring.size Ring.front take_packet
recved_packet r p =
    if leb header_size (Ring.size r) && (length (Ring.front r header_size) == header_size)
    then take_packet r (Ring.front r header_size) p
    else some (false, r, p)
