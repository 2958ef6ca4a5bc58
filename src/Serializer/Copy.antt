-- ===== src/Serializer/Copy.antt =====
-- The copy constructor and the assignment of serializers.
use chatting_server_single.Common.{
  ℕ, ◌+◌, ◌-◌, ◌^◌, ◌≤◌, ◌<◌, ◌≡◌, refl, sym, ap, ap₂, ◌∙◌, arith, List, some, u64, sub64, length,
  slice, splice, length-slice, length-splice, slice-splice_self, slice-whole, le→leb,
}
use chatting_server_single.Serializer.Memory.{
  Serializer, Block, read_mem, size, clear, resize, copy, assign,
}
use chatting_server_single.Serializer.Invariant.{
  IsValid, sizes, read_mem_lem, write_at, read_start, write_start,
}
use chatting_server_single.Serializer.Contents.{contents}

-- A block of the allocator for `n` bytes.
abbrev pub IsBlock : ℕ → Block → Type 0
IsBlock n b = (length b.junk ≡ n) × (b.address + n < 2 ^ 64)

module _ (b : Block) (v : Serializer) (w : IsValid v) (granted : IsBlock v.buffer_size b) where
  abbrev offset : ℕ
  offset = v.head_ptr - v.buffer_ptr

  abbrev chunk : List ℕ
  chunk = slice v.bytes offset (size v)

  abbrev copied : Serializer
  copied = record {
    buffer_ptr = b.address;
    buffer_size = v.buffer_size;
    head_ptr = b.address + offset;
    tail_ptr = b.address + (v.tail_ptr - v.buffer_ptr);
    bytes = splice b.junk offset chunk;
    reference_counter = 0;
  }

  fits : offset + length chunk ≤ length b.junk
  fits = omega (arith, length-slice v.bytes offset (size v), sizes w, granted)

  copied-IsValid : IsValid copied
  copied-IsValid = record {
    small = w.small;
    addressed = granted.1;
    block = length-splice b.junk offset chunk ∙ granted.0;
    head_low = omega arith;
    in_order = omega (arith, w.head_low, w.in_order);
    tail_high = omega (arith, w.tail_high, w.head_low, w.in_order);
  }

  head_there : u64 (b.address + sub64 v.head_ptr v.buffer_ptr) ≡ b.address + offset
  head_there = omega (arith, granted.1, w.head_low, w.in_order, w.tail_high, w.addressed)

  tail_there :
      u64 (b.address + sub64 v.tail_ptr v.buffer_ptr) ≡ b.address + (v.tail_ptr - v.buffer_ptr)
  tail_there = omega (arith, granted.1, w.head_low, w.in_order, w.tail_high, w.addressed)

  copy-copied : copy b v ≡ some copied
  unfolding copy
  copy-copied =
      rw
        (
          read_mem_lem v v.head_ptr (size v) w.head_low (omega (arith, sizes w, w.block)),
          head_there,
          tail_there,
        )
        (write_at (record copied { bytes = b.junk }) offset chunk fits)

  contents-copied : contents copied ≡ contents v
  unfolding contents
  contents-copied =
      ap₂ (slice copied.bytes) (omega arith) same_size ∙ slice-splice_self b.junk offset chunk fits
    where
      same_size : size copied ≡ length chunk
      same_size = omega (arith, sizes copied-IsValid, sizes w, length-slice v.bytes offset (size v))

  module _ (s : Serializer) where
    abbrev assigned : Serializer
    assigned = record copied {
      bytes = splice b.junk 0 (slice v.bytes 0 v.buffer_size);
      reference_counter = s.reference_counter;
    }

    -- The block is overwritten as a whole.
    same_bytes : assigned.bytes ≡ v.bytes
    same_bytes =
        sym (slice-whole assigned.bytes)
        ∙ ap (slice assigned.bytes 0) (omega (arith, long, block_length, granted.0))
        ∙ slice-splice_self b.junk 0 (slice v.bytes 0 v.buffer_size)
            (omega (arith, block_length, granted.0))
        ∙ ap (slice v.bytes 0) (sym w.block)
        ∙ slice-whole v.bytes
      where
        block_length : length (slice v.bytes 0 v.buffer_size) ≡ v.buffer_size
        block_length = length-slice v.bytes 0 v.buffer_size

        long : length assigned.bytes ≡ length b.junk
        long = length-splice b.junk 0 (slice v.bytes 0 v.buffer_size)

    assigned-IsValid : IsValid assigned
    assigned-IsValid =
        let c = copied-IsValid in
        record {
          small = c.small;
          addressed = c.addressed;
          block = ap length same_bytes ∙ w.block;
          head_low = c.head_low;
          in_order = c.in_order;
          tail_high = c.tail_high;
        }

    contents-assigned : contents assigned ≡ contents v
    unfolding contents
    contents-assigned =
        ap (λ l. slice l (b.address + offset - b.address) (size assigned)) same_bytes
        ∙ ap₂ (slice v.bytes) (omega arith) (omega (arith, sizes assigned-IsValid, sizes w))

    resized : Serializer
    resized = record s {
      buffer_ptr = b.address;
      buffer_size = v.buffer_size;
      head_ptr = b.address;
      tail_ptr = u64 (b.address + sub64 s.buffer_ptr b.address);
      bytes = b.junk;
    }

    resize-resized : resize b v.buffer_size (clear s) ≡ some resized
    unfolding resize clear size read_mem resized
    resize-resized = rw (nothing, le→leb 0 (length b.junk) (omega arith)) refl
      where
        nothing : sub64 s.buffer_ptr s.buffer_ptr ≡ 0
        nothing = omega arith

    assign-assigned : assign b v s ≡ some assigned
    unfolding assign resized
    assign-assigned =
        rw
          (
            resize-resized,
            read_start v v.buffer_size (omega (arith, w.block)),
            write_start resized (slice v.bytes 0 v.buffer_size)
                (omega (arith, length-slice v.bytes 0 v.buffer_size, granted.0)),
            head_there,
            tail_there,
          )
          refl

  -- A valid serializer copied, or assigned to any other, into a block of its size: what lies
  -- between the pointers is the same, and the new serializer is valid. A copy has no reference, and
  -- an assignment leaves the references of its target.
  copies_lem :
      (s : Serializer)
      → (p : Serializer) × (q : Serializer) × (copy b v ≡ some p)
        × (assign b v s ≡ some q)
        × (contents p ≡ contents v)
        × (contents q ≡ contents v)
        × IsValid p
        × IsValid q
        × (p.reference_counter ≡ 0)
        × (q.reference_counter ≡ s.reference_counter)
  copies_lem s = (
    copied,
    assigned s,
    copy-copied,
    assign-assigned s,
    contents-copied,
    contents-assigned s,
    copied-IsValid,
    assigned-IsValid s,
    refl,
    refl,
  )
