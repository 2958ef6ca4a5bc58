-- ===== src/RingBuffer.antt =====
-- lib/IOCP netServer/ringBuffer.h and ringBuffer.cpp: the ring of bytes under a session's sockets.
-- Pointers are offsets from `buffer`. The byte at `head_ptr` is never part of the contents: they
-- begin one further on, and end with the byte at `tail_ptr`.
pub mod Invariant
mod Written
pub mod Push
pub mod Pop
pub mod Rear
pub mod Copy
mod Tests
use chatting_server_single.Common.{
  ℕ, ◌+◌, ◌-◌, ◌^◌, ◌≤◌, min, bit_and, List, ◌++◌, Bool, ltb, leb, ◌==◌, if◌then◌else◌, sub64,
  length, slice, splice, ℤ, pos, ◌+ℤ◌, leb_ℤ, pattern_of, int_of,
}

pub record RingBuffer : Type 0 where
  pub buffer_size : ℕ
  pub max_size : ℕ
  pub buffer : List ℕ
  pub head_ptr : ℕ
  pub tail_ptr : ℕ

-- `ceil_pow2 n` stands for `pow(2, ceil(log2(n)))`; `storage` is what `new char[]` returns.
pub init : (ℕ → ℕ) → (ℕ → List ℕ) → ℕ → RingBuffer
init ceil_pow2 storage n = record {
  buffer_size = ceil_pow2 n;
  max_size = ceil_pow2 n - 1;
  buffer = storage (ceil_pow2 n);
  head_ptr = 0;
  tail_ptr = 0;
}

-- Pointers of one buffer differ by less than its size, so the sum below is no negative number.
unfoldable pub size_between : RingBuffer → ℕ → ℕ → ℕ
size_between r h t = bit_and (t + r.buffer_size - h) r.max_size

unfoldable pub free_between : RingBuffer → ℕ → ℕ → ℕ
unfolding size_between
free_between r h t = r.max_size - size_between r h t

unfoldable pub size : RingBuffer → ℕ
unfolding size_between
size r = size_between r r.head_ptr r.tail_ptr

-- As the compiler reads it: `-` binds tighter than `&`.
unfoldable pub free_size : RingBuffer → ℕ
free_size r = bit_and (sub64 r.max_size (r.tail_ptr + r.buffer_size - r.head_ptr)) r.max_size

unfoldable pub clear : RingBuffer → RingBuffer
clear r = record r { head_ptr = r.tail_ptr }

pub is_empty : RingBuffer → Bool
is_empty r = r.head_ptr == r.tail_ptr

-- One further on, round the end: `head()` of a head pointer, `tail()` of a tail pointer.
unfoldable pub next_of : RingBuffer → ℕ → ℕ
next_of r p = bit_and (p + 1) r.max_size

pub is_full : RingBuffer → Bool
unfolding next_of
is_full r = r.head_ptr == next_of r r.tail_ptr

pub direct_enqueue_size : RingBuffer → ℕ
unfolding next_of
direct_enqueue_size r =
    if leb (next_of r r.tail_ptr) r.head_ptr
    then r.head_ptr - next_of r r.tail_ptr
    else r.buffer_size - next_of r r.tail_ptr

pub direct_dequeue_size : RingBuffer → ℕ
unfolding next_of
direct_dequeue_size r =
    if leb (next_of r r.head_ptr) (next_of r r.tail_ptr)
    then next_of r r.tail_ptr - next_of r r.head_ptr
    else r.buffer_size - next_of r r.head_ptr

abbrev pub int_max : ℕ
int_max = 2 ^ 31 - 1

-- A pointer moved by `n` bytes, round either end.
unfoldable pub moved : RingBuffer → ℕ → ℤ → ℕ
moved r p n = bit_and (pattern_of 64 (pos p +ℤ n)) r.max_size

abbrev at_most : ℤ → ℕ → ℤ
at_most n limit = if leb_ℤ n (pos limit) then n else pos limit

-- Each returns by how many bytes the pointer went on.
unfoldable pub move_rear : RingBuffer → ℤ → RingBuffer × ℤ
unfolding free_between moved
move_rear r n =
    let n' = at_most n (min (free_between r r.head_ptr r.tail_ptr) int_max) in
    (record r { tail_ptr = moved r r.tail_ptr n' }, n')

pub move_front : RingBuffer → ℤ → RingBuffer × ℤ
unfolding size_between moved
move_front r n =
    let n' = at_most n (min (size_between r r.head_ptr r.tail_ptr) int_max) in
    (record r { head_ptr = moved r r.head_ptr n' }, n')

-- The `n` bytes of `bytes`, written from offset `i` on in one piece or in two.
pub put_bytes : RingBuffer → List ℕ → ℕ → ℕ → ℕ → List ℕ
put_bytes r bytes i d n =
    if leb n d
    then splice r.buffer i (slice bytes 0 n)
    else splice (splice r.buffer i (slice bytes 0 d)) 0 (slice bytes d (n - d))

pub push : RingBuffer → List ℕ → RingBuffer × ℕ
unfolding free_between next_of put_bytes
push r bytes =
    let n = min (length bytes) (free_between r r.head_ptr r.tail_ptr) in
    let i = next_of r r.tail_ptr in
    let d = if leb i r.head_ptr then r.head_ptr - i else r.buffer_size - i in
    (
      record r { buffer = put_bytes r bytes i d n; tail_ptr = bit_and (r.tail_ptr + n) r.max_size },
      n,
    )

-- What is copied out for a caller who asks for `n` bytes.
unfoldable pub front : RingBuffer → ℕ → List ℕ
unfolding size_between next_of
front r n =
    let n' = min n (size_between r r.head_ptr r.tail_ptr) in
    let i = next_of r r.head_ptr in
    let j = next_of r r.tail_ptr in
    let d = if leb i j then j - i else r.buffer_size - i in
    if leb n' d then slice r.buffer i n' else slice r.buffer i d ++ slice r.buffer 0 (n' - d)

unfoldable pub pop : RingBuffer → ℕ → RingBuffer × List ℕ
unfolding front size_between
pop r n =
    let n' = min n (size_between r r.head_ptr r.tail_ptr) in
    (record r { head_ptr = bit_and (r.head_ptr + n') r.max_size }, front r n)

-- The bytes held by `b`, copied to the same places of new storage.
unfoldable pub copied : RingBuffer → List ℕ → List ℕ
unfolding size next_of direct_dequeue_size
copied b new =
    let i = next_of b b.head_ptr in
    let d = direct_dequeue_size b in
    if leb b.head_ptr b.tail_ptr
    then splice new i (slice b.buffer i (size b))
    else splice (splice new i (slice b.buffer i d)) 0 (slice b.buffer 0 (size b - d))

-- The copy constructor, and the assignment to another ring.
unfoldable pub copy : (ℕ → List ℕ) → RingBuffer → RingBuffer
unfolding copied
copy storage b = record b {
  max_size = b.buffer_size - 1;
  buffer = copied b (storage b.buffer_size);
}

unfoldable pub assign : (ℕ → List ℕ) → RingBuffer → RingBuffer → RingBuffer
unfolding copied
assign storage b r = record r {
  buffer_size = b.buffer_size;
  max_size = b.max_size;
  buffer = copied b (storage b.buffer_size);
  head_ptr = b.head_ptr;
  tail_ptr = b.tail_ptr;
}
