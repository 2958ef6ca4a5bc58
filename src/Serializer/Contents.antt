-- ===== src/Serializer/Contents.antt =====
-- A serializer as a queue of bytes: `push` appends to what lies between the pointers, `pop` takes
-- from its front.
use chatting_server_single.Common.{
  ℕ, ◌+◌, ◌-◌, ◌≤◌, min, ◌≡◌, refl, ap, ap₂, ◌∙◌, arith, List, [], ◌∷◌, ◌++◌, some, length, slice,
  splice, slice-add, slice-splice_self, slice-splice_below, length-slice, length-splice, le→leb,
  int_of_small, ltb, if◌then◌else◌,
}
use chatting_server_single.Serializer.{push, pop, peek, set_string}
use chatting_server_single.Serializer.Memory.{Serializer, Block, size, useable_size, grow}
use chatting_server_single.Serializer.Invariant.{
  IsValid, sizes, read_mem_lem, write_mem_lem, move_front_pos, move_rear_pos,
}

-- The bytes between the head and the tail.
unfoldable pub contents : Serializer → List ℕ
contents s = slice s.bytes (s.head_ptr - s.buffer_ptr) (size s)

pub length-contents : (s : Serializer) → length (contents s) ≡ size s
unfolding contents
length-contents s = length-slice s.bytes (s.head_ptr - s.buffer_ptr) (size s)

-- With room for the bytes no block is asked for.
grow_none :
    (blocks : List Block) (n : ℕ) (s : Serializer) → n ≤ useable_size s → grow blocks n s ≡ some s
unfolding grow
grow_none [] n s h = rw (le→leb n (useable_size s) h)
grow_none (b ∷ bs) n s h = rw (le→leb n (useable_size s) h, grow)

module _ (s : Serializer) (xs : List ℕ) (v : IsValid s) (room : length xs ≤ useable_size s) where
  abbrev appended : Serializer
  appended = record s {
    bytes = splice s.bytes (s.tail_ptr - s.buffer_ptr) xs;
    tail_ptr = s.tail_ptr + length xs;
  }

  appended-IsValid : IsValid appended
  appended-IsValid = record {
    small = v.small;
    addressed = v.addressed;
    block = length-splice s.bytes (s.tail_ptr - s.buffer_ptr) xs ∙ v.block;
    head_low = v.head_low;
    in_order = omega (arith, v.in_order);
    tail_high = omega (arith, sizes v);
  }

  contents-appended : contents appended ≡ contents s ++ xs
  unfolding contents
  contents-appended =
      ap (slice appended.bytes (s.head_ptr - s.buffer_ptr)) longer
      ∙ slice-add appended.bytes (s.head_ptr - s.buffer_ptr) (size s) (length xs)
      ∙ ap₂ ◌++◌
          (slice-splice_below s.bytes (s.tail_ptr - s.buffer_ptr) xs (s.head_ptr - s.buffer_ptr)
            (size s) (omega (arith, sizes v)))
          (ap (λ i. slice appended.bytes i (length xs)) there
            ∙ slice-splice_self s.bytes (s.tail_ptr - s.buffer_ptr) xs
                (omega (arith, sizes v, v.block)))
    where
      longer : size appended ≡ size s + length xs
      longer = omega (arith, sizes v, sizes appended-IsValid)

      there : s.head_ptr - s.buffer_ptr + size s ≡ s.tail_ptr - s.buffer_ptr
      there = omega (arith, sizes v)

  abbrev written : Serializer
  written = record s { bytes = splice s.bytes (s.tail_ptr - s.buffer_ptr) xs }

  written-IsValid : IsValid written
  written-IsValid = record {
    small = v.small;
    addressed = v.addressed;
    block = length-splice s.bytes (s.tail_ptr - s.buffer_ptr) xs ∙ v.block;
    head_low = v.head_low;
    in_order = v.in_order;
    tail_high = v.tail_high;
  }

  push-appended : (blocks : List Block) → push blocks xs s ≡ some appended
  unfolding push useable_size
  push-appended blocks = rw (
    grow_none blocks (length xs) s room,
    write_mem_lem s s.tail_ptr xs (omega (arith, sizes v)) (omega (arith, sizes v, v.block)),
    int_of_small (length xs) (omega (arith, sizes v)),
    move_rear_pos written (length xs) written-IsValid room,
  )

  -- A text is written like bytes that are pushed.
  set_string-appended : set_string xs s ≡ some appended
  unfolding set_string useable_size
  set_string-appended = rw (
    le→leb (length xs) (useable_size s) room,
    write_mem_lem s s.tail_ptr xs (omega (arith, sizes v)) (omega (arith, sizes v, v.block)),
    int_of_small (length xs) (omega (arith, sizes v)),
    move_rear_pos written (length xs) written-IsValid room,
  )

  pub set_string_lem :
      (s' : Serializer) × (set_string xs s ≡ some s')
      × (contents s' ≡ contents s ++ xs)
      × (useable_size s' + length xs ≡ useable_size s)
      × IsValid s'
  set_string_lem = (
    appended,
    set_string-appended,
    contents-appended,
    omega (arith, sizes v, sizes appended-IsValid),
    appended-IsValid,
  )

  -- Where a valid serializer has room, `push` appends the bytes to the contents, asks for no block,
  -- and moves only the tail.
  pub push_lem :
      (blocks : List Block)
      → (s' : Serializer) × (push blocks xs s ≡ some s')
        × (contents s' ≡ contents s ++ xs)
        × (useable_size s' + length xs ≡ useable_size s)
        × (s'.head_ptr ≡ s.head_ptr)
        × IsValid s'
  push_lem blocks = (
    appended,
    push-appended blocks,
    contents-appended,
    omega (arith, sizes v, sizes appended-IsValid),
    refl,
    appended-IsValid,
  )

module _ (s : Serializer) (n : ℕ) (v : IsValid s) where
  abbrev pub count : ℕ
  count = min n (size s)

  abbrev pub advanced : Serializer
  advanced = record s { head_ptr = s.head_ptr + count }

  pub advanced-IsValid : IsValid advanced
  advanced-IsValid = omega (arith, sizes v, v.small, v.addressed, v.block)

  abbrev pub first : List ℕ
  first = slice s.bytes (s.head_ptr - s.buffer_ptr) count

  pub contents-advanced : contents s ≡ first ++ contents advanced
  unfolding contents
  contents-advanced =
      ap (slice s.bytes (s.head_ptr - s.buffer_ptr)) whole
      ∙ slice-add s.bytes (s.head_ptr - s.buffer_ptr) count (size s - count)
      ∙ ap (λ l. first ++ l)
          (ap₂ (slice s.bytes) there (omega (arith, sizes v, sizes advanced-IsValid)))
    where
      whole : size s ≡ count + (size s - count)
      whole = omega arith

      there : s.head_ptr - s.buffer_ptr + count ≡ s.head_ptr + count - s.buffer_ptr
      there = omega (arith, v.head_low)

  clamped : (if ltb (size s) n then size s else n) ≡ count
  clamped = ground arith

  -- On a valid serializer `pop` hands over the first bytes of the contents, as many as are asked
  -- for and held, and leaves the others; `peek` hands over the same bytes.
  pub pop_lem :
      (out : List ℕ) × (s' : Serializer) × (pop n s ≡ some (out, s'))
      × (peek n s ≡ some out)
      × (contents s ≡ out ++ contents s')
      × (length out ≡ min n (size s))
      × IsValid s'
  unfolding pop peek
  pop_lem = (
    first,
    advanced,
    rw (
      clamped,
      read_mem_lem s s.head_ptr count (omega (arith, sizes v)) (omega (arith, sizes v, v.block)),
      int_of_small count (omega (arith, sizes v, v.small)),
      move_front_pos s count v (omega arith),
    ),
    rw (
      clamped,
      read_mem_lem s s.head_ptr count (omega (arith, sizes v)) (omega (arith, sizes v, v.block)),
    ),
    contents-advanced,
    length-slice s.bytes (s.head_ptr - s.buffer_ptr) count,
    advanced-IsValid,
  )
