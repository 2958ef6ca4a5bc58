-- ===== src/Packet/Tests.antt =====
-- Three handles on two serializers, and a null one.
use chatting_server_single.Common.{
  ℕ, ◌+◌, ◌≡◌, refl, arith, ltb, [], ◌∷◌, some, ◌==◌, if◌then◌else◌, replaced, weight,
}
use chatting_server_single.Serializer.Memory.{Serializer}
use chatting_server_single.Packet.{Heap, init, release, destroy, copy, assign, assign_buffer}
use chatting_server_single.Packet.Sharing.{counter, Counted, unshared, sharing_lem}

abbrev references : ℕ → Serializer
references b = record {
  buffer_ptr = b;
  buffer_size = 1024;
  head_ptr = b + 5;
  tail_ptr = b + 5;
  bytes = [];
  reference_counter = if b == 4096 then 2 else if b == 8192 then 1 else 0;
}

abbrev heap : Heap
heap = record { buffers = references; freed = [] }

abbrev handles : ℕ → ℕ
handles i = if ltb i 2 then 4096 else if i == 3 then 8192 else 0

heap-Counted : Counted heap handles 4
unfolding weight
heap-Counted b there = ground arith

the_last_one_goes_back : (destroy 8192 heap).freed ≡ 8192 ∷ []
unfolding destroy release
the_last_one_goes_back = refl

shared_stays : (destroy 4096 heap).freed ≡ []
unfolding destroy release
shared_stays = refl

-- The serializer comes with no reference of its own: destroyed first, its count goes below zero.
given_serializer_counts_itself :
    counter (destroy 12288 (assign_buffer 0 12288 heap).0) 12288 ≡ 4294967295
unfolding destroy assign_buffer release
given_serializer_counts_itself = refl

opened : (counter (init 12288 heap) 12288 ≡ 1)
unfolding init
opened = refl

-- A handle on the one serializer is assigned to the only handle on the other.
sharing_lem_example :
    (Counted (destroy 8192 heap) (replaced handles 3 0) 4
      × ((destroy 8192 heap).freed ≡ unshared 8192 (replaced handles 3 0) 4 []))
    × ((h' : Heap) × (assign 8192 4096 heap ≡ some (h', 4096))
        × Counted h' (replaced handles 3 4096) 4
        × (h'.freed ≡ unshared 8192 (replaced handles 3 4096) 4 []))
    × ((h' : Heap) × (copy 4096 heap ≡ some (h', 4096))
        × Counted h' (replaced handles 2 4096) 4
        × (h'.freed ≡ []))
sharing_lem_example =
    sharing_lem heap handles 4 3 0 2 heap-Counted (omega arith) (omega arith) (omega arith)
      (omega arith) refl
