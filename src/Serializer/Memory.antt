-- ===== src/Serializer/Memory.antt =====
-- The state of a serializer, its accesses to memory, its pointers and its counter.
use chatting_server_single.Common.{
  ℕ, ◌+◌, ◌-◌, ◌*◌, ◌^◌, min, Bool, true, false, ◌&&◌, List, [], ◌∷◌, Option, none, some, ◌>>=◌,
  leb, ◌==◌, if◌then◌else◌, u32, u64, sub64, length, slice, splice, ℤ, pos, pos_part, sub_ℕ, ◌+ℤ◌,
  leb_ℤ, max_ℤ, pattern_of, int_of,
}

-- `reference_counter` is the bit pattern of a `LONG`. Whether blocks come from a heap handle or
-- from the aligned allocator makes no difference to what follows and is left out.
pub record Serializer : Type 0 where
  pub buffer_ptr : ℕ
  pub buffer_size : ℕ
  pub head_ptr : ℕ
  pub tail_ptr : ℕ
  pub bytes : List ℕ
  pub reference_counter : ℕ

-- A block that the allocator returns: its address, and the bytes that it happens to hold.
pub record Block : Type 0 where
  pub address : ℕ
  pub junk : List ℕ

-- The constructors: a block of `n` bytes, nothing written, no reference.
unfoldable pub init : Block → ℕ → Serializer
init b n = record {
  buffer_ptr = b.address;
  buffer_size = n;
  head_ptr = b.address;
  tail_ptr = b.address;
  bytes = b.junk;
  reference_counter = 0;
}

abbrev within : Serializer → ℕ → ℕ → Bool
within s p n = leb s.buffer_ptr p && leb (p + n) (s.buffer_ptr + length s.bytes)

-- `n` bytes read at `p`, or `xs` written there, inside the block.
unfoldable pub read_mem : Serializer → ℕ → ℕ → Option (List ℕ)
read_mem s p n =
    if n == 0
    then some []
    else if within s p n
    then some (slice s.bytes (p - s.buffer_ptr) n)
    else none

unfoldable pub write_mem : Serializer → ℕ → List ℕ → Option Serializer
write_mem s p xs =
    if length xs == 0
    then some s
    else if within s p (length xs)
    then some (record s { bytes = splice s.bytes (p - s.buffer_ptr) xs })
    else none

unfoldable pub size : Serializer → ℕ
size s = sub64 s.tail_ptr s.head_ptr

unfoldable pub useable_size : Serializer → ℕ
useable_size s = sub64 s.buffer_size (sub64 s.tail_ptr s.buffer_ptr)

unfoldable pub used_size : Serializer → ℕ
used_size s = sub64 s.head_ptr s.buffer_ptr

unfoldable pub clear : Serializer → Serializer
clear s = record s { head_ptr = s.buffer_ptr; tail_ptr = s.buffer_ptr }

-- The step that a pointer takes: forwards at most `room`, backwards at most to `limit`, which is a
-- difference of pointers; cut to an `int`.
abbrev offset_of : ℤ → ℕ → ℤ → ℤ
offset_of n room limit =
    int_of (if leb_ℤ (pos 0) n then pos (min (pos_part n) room) else max_ℤ n limit)

unfoldable pub move_front : Serializer → ℤ → Serializer × ℤ
unfolding size
move_front s n =
    let offset = offset_of n (size s) (sub_ℕ s.buffer_ptr s.head_ptr) in
    (record s { head_ptr = pattern_of 64 (pos s.head_ptr +ℤ offset) }, offset)

unfoldable pub move_rear : Serializer → ℤ → Serializer × ℤ
unfolding useable_size
move_rear s n =
    let offset = offset_of n (useable_size s) (sub_ℕ s.head_ptr s.tail_ptr) in
    (record s { tail_ptr = pattern_of 64 (pos s.tail_ptr +ℤ offset) }, offset)

-- Each returns the new count; `InterlockedAdd` wraps.
unfoldable pub inc_reference_counter : Serializer → ℕ → Serializer × ℕ
inc_reference_counter s n =
    let count = u32 (s.reference_counter + n) in (record s { reference_counter = count }, count)

unfoldable pub dec_reference_counter : Serializer → ℕ → Serializer × ℕ
dec_reference_counter s n =
    let count = u32 (s.reference_counter + 2 ^ 32 - n) in
    (record s { reference_counter = count }, count)

-- The bytes are moved to the new block, `head_ptr` is set, and `tail_ptr` is computed from the
-- `head_ptr` that was just set.
unfoldable pub resize : Block → ℕ → Serializer → Option Serializer
unfolding size
resize b n s = do
  chunk ← read_mem s s.head_ptr (size s)
  if leb (length chunk) (length b.junk) then some (moved chunk) else none
  where
    moved : List ℕ → Serializer
    moved chunk = record s {
      buffer_ptr = b.address;
      buffer_size = n;
      head_ptr = b.address;
      tail_ptr = u64 (b.address + sub64 s.tail_ptr b.address);
      bytes = splice b.junk 0 chunk;
    }

-- `while (useableSize() < n) resize(bufferSize * 2)`, the blocks in the order in which the
-- allocator hands them out; `none` also when they run out.
unfoldable pub grow : List Block → ℕ → Serializer → Option Serializer
unfolding useable_size
grow [] n s = if leb n (useable_size s) then some s else none
grow (b ∷ bs) n s = elim (leb n (useable_size s)) [
  | true ↦ some s
  | false ↦ resize b (s.buffer_size * 2) s >>= λ s'. grow bs n s'
]

-- The copy constructor: what lies between the pointers goes to the same place of a new block.
unfoldable pub copy : Block → Serializer → Option Serializer
unfolding size
copy b s = do
  chunk ← read_mem s s.head_ptr (size s)
  let fresh : Serializer = record {
    buffer_ptr = b.address;
    buffer_size = s.buffer_size;
    head_ptr = u64 (b.address + sub64 s.head_ptr s.buffer_ptr);
    tail_ptr = u64 (b.address + sub64 s.tail_ptr s.buffer_ptr);
    bytes = b.junk;
    reference_counter = 0;
  }
  write_mem fresh fresh.head_ptr chunk

-- The assignment of `v` to another serializer.
unfoldable pub assign : Block → Serializer → Serializer → Option Serializer
unfolding clear resize
assign b v s = do
  s1 ← resize b v.buffer_size (clear s)
  block ← read_mem v v.buffer_ptr s1.buffer_size
  s2 ← write_mem s1 s1.buffer_ptr block
  some (record s2 {
    head_ptr = u64 (s2.buffer_ptr + sub64 v.head_ptr v.buffer_ptr);
    tail_ptr = u64 (s2.buffer_ptr + sub64 v.tail_ptr v.buffer_ptr);
  })
