-- ===== src/RingBuffer/Written.antt =====
-- What the one or two `memmove`s of `push` leave in the buffer, byte by byte.
use native.Mathlib.Decide.{dec_lt}
use chatting_server_single.Common.{
  ℕ, ◌+◌, ◌-◌, ◌%◌, ◌≤◌, ◌<◌, ◌≡◌, ◌∙◌, ◌⊎◌, inl, inr, ap, arith, List, leb, if◌then◌else◌, le→leb,
  lt→leb, length, get_or, slice, splice, length-slice, length-splice, get_or-tabulate,
  get_or-splice_below, get_or-splice_above, get_or-splice_inside,
}
use chatting_server_single.RingBuffer.{RingBuffer, size, put_bytes}
use chatting_server_single.RingBuffer.Invariant.{IsValid, mod_wrap, size_cases}

pub outside :
    (buf : List ℕ) (i : ℕ) (xs : List ℕ) (j : ℕ)
    → (i ≤ j → i + length xs ≤ j)
    → get_or (splice buf i xs) j 0 ≡ get_or buf j 0
outside buf i xs j h = elim (dec_lt j i) [
  | yes p ↦ get_or-splice_below buf i xs j 0 p
  | no p ↦ get_or-splice_above buf i xs j 0 (h (omega arith))
]

-- A part of `bytes` is what is read where it was written.
pub inside :
    (buf : List ℕ) (i : ℕ) (bytes : List ℕ) (o n j m : ℕ)
    → i + n ≤ length buf
    → i ≤ j
    → j < i + n
    → o + (j - i) ≡ m
    → get_or (splice buf i (slice bytes o n)) j 0 ≡ get_or bytes m 0
inside buf i bytes o n j m fits low high e =
    ap (λ p. get_or (splice buf i (slice bytes o n)) p 0) there
    ∙ get_or-splice_inside buf i (slice bytes o n) (j - i) 0 (omega (arith, length-slice bytes o n))
        (omega (arith, length-slice bytes o n))
    ∙ get_or-tabulate n (λ p. get_or bytes (o + p) 0) (j - i) 0 (omega arith)
    ∙ ap (λ p. get_or bytes p 0) e
  where
    there : j ≡ i + (j - i)
    there = omega arith

module _ (r : RingBuffer) (v : IsValid r) (bytes : List ℕ) (i d n : ℕ)
    (first : i ≡ (r.tail_ptr + 1) % r.buffer_size)
    (direct : d ≡ (if leb i r.head_ptr then r.head_ptr - i else r.buffer_size - i))
    (room : size r + n ≤ r.max_size) where
  -- The second piece, if there is one, ends before the first byte that is held.
  pieces :
      ((n ≤ d) × (i + n ≤ r.buffer_size))
      ⊎ ((d < n) × (i + d ≡ r.buffer_size) × (n - d ≤ r.head_ptr))
  pieces = ground (arith, size_cases v, mod_wrap (r.tail_ptr + 1) r.buffer_size)

  one_piece : n ≤ d → put_bytes r bytes i d n ≡ splice r.buffer i (slice bytes 0 n)
  unfolding put_bytes
  one_piece p = rw (le→leb n d p)

  two_pieces :
      d < n
      → put_bytes r bytes i d n
        ≡ splice (splice r.buffer i (slice bytes 0 d)) 0 (slice bytes d (n - d))
  unfolding put_bytes
  two_pieces p = rw (lt→leb n d p)

  pub put_bytes_kept :
      (k : ℕ)
      → k < size r
      → get_or (put_bytes r bytes i d n) ((r.head_ptr + 1 + k) % r.buffer_size) 0
        ≡ get_or r.buffer ((r.head_ptr + 1 + k) % r.buffer_size) 0
  put_bytes_kept k held = elim pieces [
    | inl (p, fits) ↦ rw (one_piece p) (
        outside r.buffer i (slice bytes 0 n) at (λ q. omega (
          arith,
          length-slice bytes 0 n,
          before,
          mod_wrap (r.tail_ptr + 1) r.buffer_size,
          size_cases v,
        )))
    | inr (p, fits, rest) ↦ rw (two_pieces p) (
        outside (splice r.buffer i (slice bytes 0 d)) 0 (slice bytes d (n - d)) at (λ q. omega (
          arith,
          length-slice bytes d (n - d),
          before,
          mod_wrap (r.tail_ptr + 1) r.buffer_size,
          size_cases v,
        ))
        ∙ outside r.buffer i (slice bytes 0 d) at (λ q. omega (
          arith,
          length-slice bytes 0 d,
          before,
          mod_wrap (r.tail_ptr + 1) r.buffer_size,
          size_cases v,
        )))
  ]
    where
      at : ℕ
      at = (r.head_ptr + 1 + k) % r.buffer_size

      before :
          ((r.head_ptr + 1 + k < r.buffer_size) × (at ≡ r.head_ptr + 1 + k))
          ⊎ ((r.buffer_size ≤ r.head_ptr + 1 + k) × (at ≡ r.head_ptr + 1 + k - r.buffer_size))
      before = mod_wrap (r.head_ptr + 1 + k) r.buffer_size (omega (arith, size_cases v))

  pub put_bytes_stored :
      (k : ℕ)
      → k < n
      → get_or (put_bytes r bytes i d n) ((r.tail_ptr + 1 + k) % r.buffer_size) 0 ≡ get_or bytes k 0
  put_bytes_stored k below = elim pieces [
    | inl (p, fits) ↦ rw (one_piece p) (
        inside r.buffer i bytes 0 n at k (omega (arith, v.storage))
          (omega (arith, before, mod_wrap (r.tail_ptr + 1) r.buffer_size, size_cases v))
          (omega (arith, before, mod_wrap (r.tail_ptr + 1) r.buffer_size, size_cases v))
          (omega (arith, before, mod_wrap (r.tail_ptr + 1) r.buffer_size, size_cases v)))
    | inr (p, fits, rest) ↦ elim (dec_lt k d) [
      | yes q ↦ rw (two_pieces p) (
          outside buffer1 0 (slice bytes d (n - d)) at (λ _. omega (
            arith,
            before,
            mod_wrap (r.tail_ptr + 1) r.buffer_size,
            size_cases v,
            length-slice bytes d (n - d),
          ))
          ∙ inside r.buffer i bytes 0 d at k (omega (arith, v.storage))
              (omega (arith, before, mod_wrap (r.tail_ptr + 1) r.buffer_size, size_cases v))
              (omega (arith, before, mod_wrap (r.tail_ptr + 1) r.buffer_size, size_cases v))
              (omega (arith, before, mod_wrap (r.tail_ptr + 1) r.buffer_size, size_cases v)))
      | no q ↦ rw (two_pieces p) (
          inside buffer1 0 bytes d (n - d) at k
            (omega (arith, v.storage, length-splice r.buffer i (slice bytes 0 d)))
            (omega (arith, before, mod_wrap (r.tail_ptr + 1) r.buffer_size, size_cases v))
            (omega (arith, before, mod_wrap (r.tail_ptr + 1) r.buffer_size, size_cases v))
            (omega (arith, before, mod_wrap (r.tail_ptr + 1) r.buffer_size, size_cases v)))
    ]
  ]
    where
      at : ℕ
      at = (r.tail_ptr + 1 + k) % r.buffer_size

      buffer1 : List ℕ
      buffer1 = splice r.buffer i (slice bytes 0 d)

      before :
          ((r.tail_ptr + 1 + k < r.buffer_size) × (at ≡ r.tail_ptr + 1 + k))
          ⊎ ((r.buffer_size ≤ r.tail_ptr + 1 + k) × (at ≡ r.tail_ptr + 1 + k - r.buffer_size))
      before = mod_wrap (r.tail_ptr + 1 + k) r.buffer_size (omega (arith, size_cases v))
