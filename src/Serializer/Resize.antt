-- ===== src/Serializer/Resize.antt =====
-- `serializer::resize` computes `tailPtr` from a `headPtr` that already points into the new block:
-- the tail stays in the old one, which has been freed.
use chatting_server_single.Common.{
  ℕ, ◌+◌, ◌-◌, ◌*◌, ◌^◌, ◌≤◌, ◌<◌, ◌≡◌, ◌↔◌, refl, sym, ◌⊎◌, inl, inr, arith, List, [], ◌∷◌, Option,
  none, some, ◌>>=◌, length, slice, splice, length-slice, length-splice, le→leb, lt→leb, leb,
  Bool-cases, sub64, u64,
}
use chatting_server_single.Serializer.{push}
use chatting_server_single.Serializer.Memory.{
  Serializer, Block, read_mem, write_mem, size, useable_size, resize, grow,
}
use chatting_server_single.Serializer.Invariant.{IsValid, sizes, read_mem_lem}

-- Two live blocks do not touch, and lie in the 47 bits of user space.
abbrev pub Apart : Serializer → Block → Type 0
Apart s b = (b.address + length b.junk < s.buffer_ptr) ⊎ (s.buffer_ptr + s.buffer_size < b.address)

abbrev pub InUserSpace : Serializer → Block → Type 0
InUserSpace s b = (s.buffer_ptr + s.buffer_size < 2 ^ 47) × (b.address + length b.junk < 2 ^ 47)

module _ (s : Serializer) (v : IsValid s) (b : Block) (n : ℕ) (user : InUserSpace s b)
    (fits : size s ≤ length b.junk) where
  abbrev moved : Serializer
  moved = record s {
    buffer_ptr = b.address;
    buffer_size = n;
    head_ptr = b.address;
    tail_ptr = s.tail_ptr;
    bytes = splice b.junk 0 (slice s.bytes (s.head_ptr - s.buffer_ptr) (size s));
  }

  resize-moved : resize b n s ≡ some moved
  unfolding resize
  resize-moved =
      rw
        (
          read_mem_lem s s.head_ptr (size s) (omega (arith, sizes v))
              (omega (arith, sizes v, v.block)),
          length-slice s.bytes (s.head_ptr - s.buffer_ptr) (size s),
          le→leb (size s) (length b.junk) fits,
        )
        (rw same_tail)
    where
      same_tail : u64 (b.address + sub64 s.tail_ptr b.address) ≡ s.tail_ptr
      same_tail = omega (arith, user, v.tail_high)

  -- For a valid serializer, and a new block in user space that the contents fit in, `resize` sets
  -- the head to the new block, but the tail is where it was; so the size is what it was only if the
  -- new block begins at the old head.
  resize_tail :
      (s' : Serializer) × (resize b n s ≡ some s')
      × (s'.head_ptr ≡ b.address)
      × (s'.tail_ptr ≡ s.tail_ptr)
      × ((size s' ≡ size s) ↔ (b.address ≡ s.head_ptr))
  unfolding size
  resize_tail = (
    moved,
    resize-moved,
    refl,
    refl,
    (λ e. omega (arith, user, sizes v), λ e. omega (arith, user, sizes v)),
  )

  -- Nothing can be written at that tail.
  write_mem-moved :
      Apart s b
      → n ≡ length b.junk
      → (xs : List ℕ) → 0 < length xs
      → write_mem moved s.tail_ptr xs ≡ none
  unfolding write_mem
  write_mem-moved apart whole xs some_bytes = ground (
    arith,
    sizes v,
    apart,
    length-splice b.junk 0 (slice s.bytes (s.head_ptr - s.buffer_ptr) (size s)),
  )

  read_mem-moved :
      s.buffer_ptr + s.buffer_size < b.address → read_mem moved b.address (size moved) ≡ none
  unfolding read_mem size
  read_mem-moved above = ground (
    arith,
    v.tail_high,
    user,
    length-splice b.junk 0 (slice s.bytes (s.head_ptr - s.buffer_ptr) (size s)),
  )

  resize_again :
      s.buffer_ptr + s.buffer_size < b.address → (b2 : Block) (n2 : ℕ) → resize b2 n2 moved ≡ none
  unfolding resize
  resize_again above b2 n2 = rw (read_mem-moved above)

  room_below :
      b.address + length b.junk < s.buffer_ptr → n ≡ length b.junk → 2 ^ 63 ≤ useable_size moved
  unfolding useable_size
  room_below below whole = omega (arith, user, sizes v)

  fails :
      Apart s b
      → n ≡ length b.junk
      → (bs : List Block) (xs : List ℕ) → 0 < length xs
      → length xs < 2 ^ 31
      → (grow bs (length xs) moved >>= λ s'. write_mem s' s'.tail_ptr xs) ≡ none
  unfolding grow
  fails apart whole [] xs low high = elim (Bool-cases (leb (length xs) (useable_size moved))) [
    | inl enough ↦ rw (enough, grow) (write_mem-moved apart whole xs low)
    | inr short ↦ rw (short, grow)
  ]
  fails (inl below) whole (b2 ∷ bs) xs low high =
      rw (le→leb (length xs) (useable_size moved) (omega (arith, room_below below whole)), grow)
        (write_mem-moved (inl below) whole xs low)
  fails (inr above) whole (b2 ∷ bs) xs low high =
      elim (Bool-cases (leb (length xs) (useable_size moved))) [
        | inl enough ↦ rw (enough, grow) (write_mem-moved (inr above) whole xs low)
        | inr short ↦ rw (short, grow) (rw (resize_again above b2 (moved.buffer_size * 2)))
      ]

bind_none :
    (m : Option Serializer) (f g : Serializer → Option Serializer)
    → (m >>= f) ≡ none
    → (m >>= λ s. f s >>= g) ≡ none
bind_none none f g h = refl
bind_none (some s) f g h = rw h

-- So a `push` to a valid serializer for which the buffer must grow accesses memory outside the
-- serializer's block, if the new block is in user space, apart from the old one and twice as
-- large, and less than 2 GB are pushed.
pub push_growth_faults :
    (b : Block) (bs : List Block) (xs : List ℕ) (s : Serializer)
    → IsValid s
    → InUserSpace s b
    → Apart s b
    → length b.junk ≡ s.buffer_size * 2
    → useable_size s < length xs
    → length xs < 2 ^ 31
    → push (b ∷ bs) xs s ≡ none
unfolding push grow
push_growth_faults b bs xs s v user apart doubled short high =
    rw (lt→leb (length xs) (useable_size s) short, grow)
      (rw (resize-moved s v b (s.buffer_size * 2) user fits) (
        bind_none (grow bs (length xs) (moved s v b (s.buffer_size * 2) user fits)) _ _
          (fails s v b (s.buffer_size * 2) user fits apart (sym doubled) bs xs (omega arith) high)))
  where
    fits : size s ≤ length b.junk
    fits = omega (arith, sizes v)
