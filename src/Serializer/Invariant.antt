-- ===== src/Serializer/Invariant.antt =====
-- When the pointers of a serializer lie in order in its block, and what its accesses and moves do
-- then.
use chatting_server_single.Common.{
  ℕ, zero, suc, ◌+◌, ◌-◌, ◌^◌, ◌≤◌, ◌<◌, ◌≡◌, refl, ap, ◌∙◌, arith, List, [], ◌∷◌, some, length,
  slice, splice, ℤ, pos, negsuc,
}
use chatting_server_single.Serializer.Memory.{
  Serializer, read_mem, write_mem, size, useable_size, used_size, move_front, move_rear,
}

pub record IsValid (s : Serializer) : Type 0 where
  pub small : s.buffer_size < 2 ^ 31
  pub addressed : s.buffer_ptr + s.buffer_size < 2 ^ 64
  pub block : length s.bytes ≡ s.buffer_size
  pub head_low : s.buffer_ptr ≤ s.head_ptr
  pub in_order : s.head_ptr ≤ s.tail_ptr
  pub tail_high : s.tail_ptr ≤ s.buffer_ptr + s.buffer_size

-- The sizes are plain differences.
pub sizes :
    {s : Serializer}
    → IsValid s
    → (size s + s.head_ptr ≡ s.tail_ptr)
      × (useable_size s + s.tail_ptr ≡ s.buffer_ptr + s.buffer_size)
      × (used_size s + s.buffer_ptr ≡ s.head_ptr)
unfolding size useable_size used_size
sizes v = omega arith

pub read_mem_lem :
    (s : Serializer) (p n : ℕ)
    → s.buffer_ptr ≤ p
    → p + n ≤ s.buffer_ptr + length s.bytes
    → read_mem s p n ≡ some (slice s.bytes (p - s.buffer_ptr) n)
unfolding read_mem
read_mem_lem s p zero h k = refl
read_mem_lem s p (suc n) h k = ground arith

pub write_mem_lem :
    (s : Serializer) (p : ℕ) (xs : List ℕ)
    → s.buffer_ptr ≤ p
    → p + length xs ≤ s.buffer_ptr + length s.bytes
    → write_mem s p xs ≡ some (record s { bytes = splice s.bytes (p - s.buffer_ptr) xs })
unfolding write_mem
write_mem_lem s p [] h k = refl
write_mem_lem s p (x ∷ xs) h k = ground arith

pub move_front-IsValid : {s : Serializer} (n : ℤ) → IsValid s → IsValid (move_front s n).0
unfolding move_front
move_front-IsValid (pos n) v = ground arith
move_front-IsValid (negsuc n) v = ground arith

pub move_rear-IsValid : {s : Serializer} (n : ℤ) → IsValid s → IsValid (move_rear s n).0
unfolding move_rear
move_rear-IsValid (pos n) v = ground arith
move_rear-IsValid (negsuc n) v = ground arith

-- `moveFront` and `moveRear` by any number of bytes, either way, leave a valid serializer valid.
pub pointer_moves-IsValid :
    {s : Serializer} (n : ℤ) → IsValid s → IsValid (move_front s n).0 × IsValid (move_rear s n).0
pointer_moves-IsValid n v = (move_front-IsValid n v, move_rear-IsValid n v)

pub move_front_pos :
    (s : Serializer) (n : ℕ)
    → IsValid s
    → n ≤ size s
    → move_front s (pos n) ≡ (record s { head_ptr = s.head_ptr + n }, pos n)
unfolding move_front
move_front_pos s n v h = ground (arith, sizes v)

pub move_front_back :
    (s : Serializer) (n : ℕ)
    → IsValid s
    → s.buffer_ptr + suc n ≤ s.head_ptr
    → move_front s (negsuc n) ≡ (record s { head_ptr = s.head_ptr - suc n }, negsuc n)
unfolding move_front
move_front_back s n v h = ground (arith, sizes v)

pub move_rear_pos :
    (s : Serializer) (n : ℕ)
    → IsValid s
    → n ≤ useable_size s
    → move_rear s (pos n) ≡ (record s { tail_ptr = s.tail_ptr + n }, pos n)
unfolding move_rear
move_rear_pos s n v h = ground (arith, sizes v)

-- Accesses at an offset of the block.
pub read_at :
    (s : Serializer) (o n : ℕ)
    → o + n ≤ length s.bytes
    → read_mem s (s.buffer_ptr + o) n ≡ some (slice s.bytes o n)
read_at s o n h =
    read_mem_lem s (s.buffer_ptr + o) n (omega arith) (omega arith)
    ∙ ap (λ i. some (slice s.bytes i n)) (omega arith)

pub write_at :
    (s : Serializer) (o : ℕ) (xs : List ℕ)
    → o + length xs ≤ length s.bytes
    → write_mem s (s.buffer_ptr + o) xs ≡ some (record s { bytes = splice s.bytes o xs })
write_at s o xs h =
    write_mem_lem s (s.buffer_ptr + o) xs (omega arith) (omega arith)
    ∙ ap (λ i. some (record s { bytes = splice s.bytes i xs })) (omega arith)

pub read_start :
    (s : Serializer) (n : ℕ)
    → n ≤ length s.bytes
    → read_mem s s.buffer_ptr n ≡ some (slice s.bytes 0 n)
read_start s n h =
    read_mem_lem s s.buffer_ptr n (omega arith) (omega arith)
    ∙ ap (λ i. some (slice s.bytes i n)) (omega arith)

pub write_start :
    (s : Serializer) (xs : List ℕ)
    → length xs ≤ length s.bytes
    → write_mem s s.buffer_ptr xs ≡ some (record s { bytes = splice s.bytes 0 xs })
write_start s xs h =
    write_mem_lem s s.buffer_ptr xs (omega arith) (omega arith)
    ∙ ap (λ i. some (record s { bytes = splice s.bytes i xs })) (omega arith)
