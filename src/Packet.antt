-- ===== src/Packet.antt =====
-- lib/IOCP netServer/packet.h: handles on serializers that share them by a count of references. A
-- handle is the address of its serializer, null if it has none; what it passes on to the serializer
-- is Serializer's. A null pointer followed is `none`.
pub mod Sharing
mod Tests
use chatting_server_single.Common.{
  ℕ, List, ◌∷◌, Option, none, some, ◌==◌, if◌then◌else◌, pos, replaced,
}
use chatting_server_single.Serializer.Memory.{
  Serializer, clear, move_front, move_rear, inc_reference_counter, dec_reference_counter,
}

-- The serializers by address, and those handed back to the pool, the last one first.
pub record Heap : Type 0 where
  pub buffers : ℕ → Serializer
  pub freed : List ℕ

-- `packet()` with what the pool hands out: room for a header is left, and one reference is taken.
unfoldable pub init : ℕ → Heap → Heap
unfolding clear move_rear move_front inc_reference_counter
init b h =
    let s = (move_front (move_rear (clear (h.buffers b)) (pos 5)).0 (pos 5)).0 in
    record h { buffers = replaced h.buffers b (inc_reference_counter s 1).0 }

-- `incReferenceCounter` of a handle, with the count that it returns.
unfoldable pub acquire : ℕ → ℕ → Heap → Heap × ℕ
unfolding inc_reference_counter
acquire b n h = if b == 0 then (h, 0) else (
  record h { buffers = replaced h.buffers b (inc_reference_counter (h.buffers b) n).0 },
  (inc_reference_counter (h.buffers b) n).1,
)

-- `decReferenceCounter` of a handle, which is null after the last reference.
unfoldable pub release : ℕ → ℕ → Heap → Heap × ℕ × ℕ
unfolding dec_reference_counter
release b n h =
    let s = (dec_reference_counter (h.buffers b) n).0 in
    let count = (dec_reference_counter (h.buffers b) n).1 in
    let left = record h { buffers = replaced h.buffers b s } in
    if b == 0
    then (h, b, 0)
    else if count == 0
    then (record left { freed = b ∷ h.freed }, 0, count)
    else (left, b, count)

-- The destructor.
unfoldable pub destroy : ℕ → Heap → Heap
unfolding release
destroy b h = (release b 1 h).0

-- The copy constructor.
unfoldable pub copy : ℕ → Heap → Option (Heap × ℕ)
unfolding acquire
copy b h = if b == 0 then none else some ((acquire b 1 h).0, b)

-- The assignment of handle `b` to handle `a`: the new reference is taken before the old one is
-- given back.
unfoldable pub assign : ℕ → ℕ → Heap → Option (Heap × ℕ)
unfolding acquire release
assign a b h = if b == 0 then none else some ((release a 1 (acquire b 1 h).0).0, b)

-- The assignment of a serializer, whose reference the caller hands over.
unfoldable pub assign_buffer : ℕ → ℕ → Heap → Heap × ℕ
unfolding release
assign_buffer a s h = ((release a 1 h).0, s)
