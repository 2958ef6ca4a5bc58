-- ===== src/RingBuffer/Copy.antt =====
-- The copy constructor and the assignment of rings.
use native.Mathlib.Decide.{dec_lt}
use chatting_server_single.Common.{
  ℕ, ◌+◌, ◌-◌, ◌%◌, ◌≤◌, ◌<◌, ◌≡◌, refl, ap, ◌∙◌, inl, inr, arith, List, leb, le→leb, lt→leb,
  if◌then◌else◌, length, get_or, slice, splice, length-slice, length-splice, tabulate, tabulate-ext,
}
use chatting_server_single.RingBuffer.{
  RingBuffer, size, next_of, direct_dequeue_size, copied, copy, assign,
}
use chatting_server_single.RingBuffer.Invariant.{IsValid, contents, mod_wrap, masked, size_cases}
use chatting_server_single.RingBuffer.Written.{inside, outside}

module _ (b : RingBuffer) (v : IsValid b) (new : List ℕ) (sized : length new ≡ b.buffer_size) where
  abbrev oldest : ℕ
  oldest = (b.head_ptr + 1) % b.buffer_size

  abbrev newest : ℕ
  newest = (b.tail_ptr + 1) % b.buffer_size

  abbrev direct : ℕ
  direct = if leb oldest newest then newest - oldest else b.buffer_size - oldest

  direct_lem : direct_dequeue_size b ≡ direct
  unfolding direct_dequeue_size next_of
  direct_lem = rw (masked v (b.head_ptr + 1), masked v (b.tail_ptr + 1)) refl

  one_piece :
      b.head_ptr ≤ b.tail_ptr → copied b new ≡ splice new oldest (slice b.buffer oldest (size b))
  unfolding copied next_of
  one_piece h = rw (le→leb b.head_ptr b.tail_ptr h, masked v (b.head_ptr + 1)) refl

  two_pieces :
      b.tail_ptr < b.head_ptr
      → copied b new
        ≡ splice
            (splice new oldest (slice b.buffer oldest direct))
            0
            (slice b.buffer 0 (size b - direct))
  unfolding copied next_of
  two_pieces h = rw (lt→leb b.head_ptr b.tail_ptr h, direct_lem, masked v (b.head_ptr + 1)) refl

  length-copied : length (copied b new) ≡ b.buffer_size
  length-copied = elim (size_cases v) [
    | inl (h, _) ↦
        rw (one_piece h) (length-splice new oldest (slice b.buffer oldest (size b)) ∙ sized)
    | inr (h, _) ↦ rw (two_pieces h) (
        length-splice (splice new oldest (slice b.buffer oldest direct)) 0
          (slice b.buffer 0 (size b - direct))
        ∙ length-splice new oldest (slice b.buffer oldest direct)
        ∙ sized)
  ]

  -- Every byte held is at its place.
  copied_lem :
      (k : ℕ)
      → k < size b
      → get_or (copied b new) ((b.head_ptr + 1 + k) % b.buffer_size) 0
        ≡ get_or b.buffer ((b.head_ptr + 1 + k) % b.buffer_size) 0
  copied_lem k held =
      let at = (b.head_ptr + 1 + k) % b.buffer_size in
      let place = mod_wrap (b.head_ptr + 1 + k) b.buffer_size (omega (arith, size_cases v)) in
      let first = mod_wrap (b.head_ptr + 1) b.buffer_size (omega (arith, v.head_in)) in
      let behind = mod_wrap (b.tail_ptr + 1) b.buffer_size (omega (arith, v.tail_in)) in
      let rest = length-slice b.buffer 0 (size b - direct) in
      let written = length-splice new oldest (slice b.buffer oldest direct) in
      elim (size_cases v) [
        | inl (h, e) ↦ rw (one_piece h) (
            inside new oldest b.buffer oldest (size b) at at (ground arith) (ground arith)
              (ground arith) (ground arith))
        | inr (h, e) ↦ elim (dec_lt k direct) [
          | yes near ↦ rw (two_pieces h) (
              outside (splice new oldest (slice b.buffer oldest direct)) 0
                (slice b.buffer 0 (size b - direct)) at (λ _. (ground arith))
              ∙ inside new oldest b.buffer oldest direct at at (ground arith) (ground arith)
                  (ground arith) (ground arith))
          | no far ↦ rw (two_pieces h) (
              inside (splice new oldest (slice b.buffer oldest direct)) 0 b.buffer 0
                (size b - direct) at at (ground arith) (ground arith) (ground arith) (ground arith))
        ]
      ]

module _ (storage : ℕ → List ℕ) (b : RingBuffer) (v : IsValid b)
    (sized : length (storage b.buffer_size) ≡ b.buffer_size) where
  copy-IsValid : IsValid (copy storage b)
  unfolding copy
  copy-IsValid = record {
    exponent = v.exponent;
    power = v.power;
    narrow = v.narrow;
    two = v.two;
    mask = refl;
    storage = length-copied b v (storage b.buffer_size) sized;
    head_in = v.head_in;
    tail_in = v.tail_in;
  }

  size-copy : size (copy storage b) ≡ size b
  unfolding size copy
  size-copy = omega (arith, size_cases v, size_cases copy-IsValid, v.head_in, v.tail_in)

  -- A copy of a valid ring is valid and holds the same bytes, whatever the new storage held, and
  -- the assignment to another ring makes it the same as a copy.
  pub copy_lem :
      (r : RingBuffer)
      → (contents (copy storage b) ≡ contents b)
        × IsValid (copy storage b)
        × (assign storage b r ≡ copy storage b)
  unfolding contents copy assign
  copy_lem r = (
    ap (λ n. tabulate n held_new) size-copy
        ∙ tabulate-ext (size b) held_new held (copied_lem b v (storage b.buffer_size) sized),
    copy-IsValid,
    ap (λ m. record (copy storage b) { max_size = m }) v.mask,
  )
    where
      held : ℕ → ℕ
      held i = get_or b.buffer ((b.head_ptr + 1 + i) % b.buffer_size) 0

      held_new : ℕ → ℕ
      held_new i =
          get_or (copied b (storage b.buffer_size)) ((b.head_ptr + 1 + i) % b.buffer_size) 0
