-- ===== src/Serializer/Skipped.antt =====
-- Scalars read whatever they are: the head goes on by their widths, and the block stays.
use chatting_server_single.Common.{
  ℕ, ◌+◌, ◌-◌, ◌≤◌, ◌≡◌, ap, arith, List, [], ◌∷◌, some, slice, of_le_bytes,
}
use chatting_server_single.Serializer.{read_scalar, read_fields}
use chatting_server_single.Serializer.Memory.{Serializer, size}
use chatting_server_single.Serializer.Invariant.{IsValid, sizes, read_mem_lem, move_front_pos}

abbrev pub sum : List ℕ → ℕ
sum [] = 0
sum (w ∷ ws) = w + sum ws

-- The serializer with its head `n` bytes further on.
abbrev pub skip : ℕ → Serializer → Serializer
skip n s = record s { head_ptr = s.head_ptr + n }

skip-IsValid : (n : ℕ) (s : Serializer) → IsValid s → n ≤ size s → IsValid (skip n s)
skip-IsValid n s v h = omega (arith, sizes v, v.small, v.addressed, v.block)

read_scalar-skip :
    (w : ℕ) (s : Serializer)
    → IsValid s
    → w ≤ size s
    → read_scalar w s ≡ some (of_le_bytes (slice s.bytes (s.head_ptr - s.buffer_ptr) w), skip w s)
unfolding read_scalar
read_scalar-skip w s v h = rw (
  read_mem_lem s s.head_ptr w (omega (arith, sizes v)) (omega (arith, h, sizes v, v.block)),
  move_front_pos s w v h,
)

pub read_fields-skip :
    (ws : List ℕ) (s : Serializer)
    → IsValid s
    → sum ws ≤ size s
    → (vs : List ℕ) × (read_fields ws s ≡ some (vs, skip (sum ws) s))
unfolding read_fields
read_fields-skip [] s v h = ([], ap (λ n. some ([], record s { head_ptr = n })) (omega arith))
read_fields-skip (w ∷ ws) s v h =
    let w_fits : w ≤ size s = omega arith in
    let valid = skip-IsValid w s v w_fits in
    let (vs, e) = read_fields-skip ws (skip w s) valid (omega (arith, h, sizes v, sizes valid)) in
    (
      of_le_bytes (slice s.bytes (s.head_ptr - s.buffer_ptr) w) ∷ vs,
      rw (read_scalar-skip w s v w_fits) (
          rw e (
            ap
              (λ n. some (
                of_le_bytes (slice s.bytes (s.head_ptr - s.buffer_ptr) w) ∷ vs,
                record s { head_ptr = n },
              ))
              (omega arith))),
    )
