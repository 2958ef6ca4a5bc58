-- ===== src/Session/Framing.antt =====
-- Packets that arrive one behind the other in the ring are peeled off one by one.
use chatting_server_single.Common.{
  ℕ, ◌+◌, ◌^◌, ◌≤◌, ◌<◌, ◌≡◌, refl, ◌∙◌, sym, ap, ap₂, arith, true, List, [], ◌∷◌, ◌++◌,
  append_assoc, some, length, length-append, length-splice, slice, splice, slice-splice_self, pos,
  negsuc, le→leb,
}
use chatting_server_single.RingBuffer.{RingBuffer}
use chatting_server_single.RingBuffer as Ring
use chatting_server_single.RingBuffer.Invariant as RingInvariant
use chatting_server_single.RingBuffer.Push as RingPush
use chatting_server_single.RingBuffer.Pop.{pop_refines}
use chatting_server_single.Serializer.Memory.{Serializer, write_mem, move_front, move_rear}
use chatting_server_single.Serializer.Invariant.{
  IsValid, sizes, write_start, move_front_back, move_rear_pos,
}
use chatting_server_single.Serializer.Sealing.{header_bytes}
use chatting_server_single.Session.{recved_packet, take_packet, frame_size, body_size}

cons_parts : (x z : ℕ) (xs zs : List ℕ) → x ∷ xs ≡ z ∷ zs → (x ≡ z) × (xs ≡ zs)
cons_parts x z xs zs e = ground arith

-- What two equal lists begin with.
pub same_start :
    (xs ys zs ws : List ℕ) → xs ++ ys ≡ zs ++ ws → length xs ≡ length zs → (xs ≡ zs) × (ys ≡ ws)
same_start [] ys [] ws e h = (refl, e)
same_start [] ys (z ∷ zs) ws e h = absurd (omega arith)
same_start (x ∷ xs) ys [] ws e h = absurd (omega arith)
same_start (x ∷ xs) ys (z ∷ zs) ws e h =
    let (f, g) = cons_parts x z (xs ++ ys) (zs ++ ws) e in
    let (p, q) = same_start xs ys zs ws g (omega arith) in (ap₂ ◌∷◌ f p, q)

-- The header of a frame says how long the frame is.
pub frame_size_lem :
    (n key check : ℕ) → n < 2 ^ 15 → frame_size (header_bytes (pos n) key check) ≡ 5 + n
frame_size_lem n key check h = ground arith

body_size_lem : (n key check : ℕ) → n < 2 ^ 15 → body_size (header_bytes (pos n) key check) ≡ pos n
body_size_lem n key check h = ground arith

module _ (r : RingBuffer) (p : Serializer) (n key check : ℕ) (body rest : List ℕ)
    (v : RingInvariant.IsValid r) (w : IsValid p)
    (opened : (p.head_ptr ≡ p.buffer_ptr + 5) × (p.tail_ptr ≡ p.buffer_ptr + 5))
    (room : 5 + n ≤ p.buffer_size) (short : n < 2 ^ 15) (sized : length body ≡ n)
    (held : RingInvariant.contents r ≡ (header_bytes (pos n) key check ++ body) ++ rest) where
  abbrev frame : List ℕ
  frame = header_bytes (pos n) key check ++ body

  length-frame : length frame ≡ 5 + n
  length-frame = omega arith

  many : 5 + n ≤ Ring.size r
  many = omega (arith, length-append frame rest, ap length held, RingPush.length-contents r)

  abbrev popped : RingBuffer
  popped = (Ring.pop r (5 + n)).0

  pop-frame : ((Ring.pop r (5 + n)).1 ≡ frame) × (RingInvariant.contents popped ≡ rest)
  pop-frame =
      let (l, c, _) = pop_refines r v (5 + n) in
      same_start (Ring.pop r (5 + n)).1 (RingInvariant.contents popped) frame rest (sym c ∙ held)
        (omega (arith, many, l))

  front-header : Ring.front r 5 ≡ header_bytes (pos n) key check
  unfolding Ring.pop
  front-header =
      let (l, c, _) = pop_refines r v 5 in
      (same_start (Ring.pop r 5).1 (RingInvariant.contents (Ring.pop r 5).0)
        (header_bytes (pos n) key check) (body ++ rest)
        (sym c ∙ held ∙ append_assoc (header_bytes (pos n) key check) body rest)
        (omega (arith, many, l))).0

  filled : Serializer
  filled = record p { bytes = splice p.bytes 0 frame }

  taken : Serializer
  unfolding filled
  taken = record filled { head_ptr = p.buffer_ptr; tail_ptr = p.buffer_ptr + (5 + n) }

  filled-IsValid : IsValid filled
  unfolding filled
  filled-IsValid = omega (
    arith,
    length-splice p.bytes 0 frame,
    w.small,
    w.addressed,
    w.block,
    w.head_low,
    w.in_order,
    w.tail_high,
  )

  abbrev longer : Serializer
  longer = record p { tail_ptr = p.tail_ptr + n; bytes = splice p.bytes 0 frame }

  longer-IsValid : IsValid longer
  unfolding filled
  longer-IsValid =
      let f = filled-IsValid in
      omega (arith, f.small, f.addressed, f.block, w.head_low, opened, room)

  taken-IsValid : IsValid taken
  unfolding taken
  taken-IsValid =
      let f = filled-IsValid in
      omega (arith, f.small, f.addressed, f.block, w.head_low, opened, room)

  fill : write_mem p p.buffer_ptr frame ≡ some filled
  unfolding filled
  fill = write_start p frame (omega (arith, w.block))

  moves : (move_front (move_rear filled (pos n)).0 (negsuc 4)).0 ≡ taken
  unfolding taken filled
  moves =
      ap (λ m. (move_front m.0 (negsuc 4)).0)
        (move_rear_pos filled n filled-IsValid (omega (arith, sizes filled-IsValid, opened, room)))
      ∙ ap (λ m. m.0) (move_front_back longer 4 longer-IsValid (omega (arith, opened)))
      ∙ ap₂ (λ a b. record filled { head_ptr = a; tail_ptr = b }) (omega (arith, opened))
          (omega (arith, opened))

  take_packet-taken :
      take_packet r (header_bytes (pos n) key check) p ≡ some (true, (Ring.pop r (5 + n)).0, taken)
  unfolding take_packet
  take_packet-taken =
      rw
        (
          frame_size_lem n key check short,
          body_size_lem n key check short,
          le→leb (5 + n) (Ring.size r) many,
          pop-frame.0,
          fill,
          moves,
        )
        refl

  recved_packet-taken : recved_packet r p ≡ some (true, (Ring.pop r (5 + n)).0, taken)
  unfolding recved_packet
  recved_packet-taken =
      rw (front-header, le→leb 5 (Ring.size r) (omega (arith, many))) take_packet-taken

  -- If a valid ring holds a whole frame with a body of `n` < 2 ^ 15 bytes first, and a valid
  -- serializer was cleared, has head and tail behind the place of the header, and has room for the
  -- frame, then `recvedPacket` takes exactly the frame out of the ring, and it is what the
  -- serializer then holds.
  pub recved_packet_lem :
      (p' : Serializer) × (recved_packet r p ≡ some (true, (Ring.pop r (5 + n)).0, p'))
      × (RingInvariant.contents (Ring.pop r (5 + n)).0 ≡ rest)
      × (slice p'.bytes 0 (5 + n) ≡ header_bytes (pos n) key check ++ body)
      × (p'.head_ptr ≡ p'.buffer_ptr)
      × (p'.tail_ptr ≡ p'.buffer_ptr + (5 + n))
      × IsValid p'
  unfolding taken
  recved_packet_lem = (
    taken,
    recved_packet-taken,
    pop-frame.1,
    ap (λ k. slice (splice p.bytes 0 frame) 0 k) (sym length-frame)
        ∙ slice-splice_self p.bytes 0 frame (omega (arith, w.block)),
    refl,
    refl,
    taken-IsValid,
  )
