-- ===== src/RingBuffer/Tests.antt =====
-- A ring of eight bytes on concrete inputs, and the theorems about rings at these.
use chatting_server_single.Common.{◌-◌, ◌≡◌, refl, arith, min, [], ◌∷◌, ◌++◌, length, slice, pos}
use chatting_server_single.RingBuffer.{
  RingBuffer, size, free_size, push, pop, move_rear, direct_enqueue_size, direct_dequeue_size,
}
use chatting_server_single.RingBuffer.Invariant.{IsValid, contents}
use chatting_server_single.RingBuffer.Push.{push_refines}
use chatting_server_single.RingBuffer.Pop.{pop_refines}
use chatting_server_single.RingBuffer.Rear.{scattered, move_rear-scattered}

-- Holds 6, 7, 8, 9 and goes round the end of the buffer.
abbrev wrapped : RingBuffer
wrapped = record {
  buffer_size = 8;
  max_size = 7;
  buffer = 8 ∷ 9 ∷ 2 ∷ 3 ∷ 4 ∷ 5 ∷ 6 ∷ 7 ∷ [];
  head_ptr = 5;
  tail_ptr = 1;
}

wrapped-IsValid : IsValid wrapped
wrapped-IsValid = record {
  exponent = 3;
  power = refl;
  narrow = omega arith;
  two = omega arith;
  mask = refl;
  storage = refl;
  head_in = omega arith;
  tail_in = omega arith;
}

contents-wrapped : contents wrapped ≡ 6 ∷ 7 ∷ 8 ∷ 9 ∷ []
unfolding contents size
contents-wrapped = refl

sizes_of_wrapped :
    (free_size wrapped ≡ 3) × (direct_enqueue_size wrapped ≡ 3) × (direct_dequeue_size wrapped ≡ 2)
unfolding free_size direct_enqueue_size direct_dequeue_size
sizes_of_wrapped = (refl, refl, refl)

push_stops_when_full : (push wrapped (1 ∷ 2 ∷ 3 ∷ 4 ∷ [])).1 ≡ 3
unfolding push
push_stops_when_full = refl

pop_two_pieces : (pop wrapped 3).1 ≡ 6 ∷ 7 ∷ 8 ∷ []
unfolding pop
pop_two_pieces = refl

push_refines_example :
    ((push wrapped (1 ∷ 2 ∷ 3 ∷ 4 ∷ [])).1 ≡ min 4 (7 - size wrapped))
    × (contents (push wrapped (1 ∷ 2 ∷ 3 ∷ 4 ∷ [])).0
        ≡ contents wrapped ++ slice (1 ∷ 2 ∷ 3 ∷ 4 ∷ []) 0 (push wrapped (1 ∷ 2 ∷ 3 ∷ 4 ∷ [])).1)
    × IsValid (push wrapped (1 ∷ 2 ∷ 3 ∷ 4 ∷ [])).0
push_refines_example = push_refines wrapped wrapped-IsValid (1 ∷ 2 ∷ 3 ∷ 4 ∷ [])

pop_refines_example :
    (length (pop wrapped 3).1 ≡ min 3 (size wrapped))
    × (contents wrapped ≡ (pop wrapped 3).1 ++ contents (pop wrapped 3).0)
    × IsValid (pop wrapped 3).0
pop_refines_example = pop_refines wrapped wrapped-IsValid 3

move_rear-scattered_example :
    move_rear (scattered wrapped (1 ∷ 2 ∷ [])) (pos 2)
    ≡ ((push wrapped (1 ∷ 2 ∷ [])).0, pos (push wrapped (1 ∷ 2 ∷ [])).1)
unfolding size
move_rear-scattered_example = move_rear-scattered wrapped (1 ∷ 2 ∷ []) wrapped-IsValid (omega arith)
