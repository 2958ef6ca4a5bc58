-- ===== src/RingBuffer/Push.antt =====
-- `push` on a valid ring, as an operation on the list of bytes that the ring holds.
use native.Mathlib.Nat.{mod-eq-sub-mod}
use chatting_server_single.Common.{
  ℕ, ◌+◌, ◌-◌, ◌%◌, ◌≤◌, ◌≡◌, refl, ◌∙◌, ap, ap₂, inl, inr, arith, min, List, ◌++◌, leb,
  if◌then◌else◌, length, get_or, slice, splice, tabulate, tabulate-ext, tabulate-add,
  length-tabulate, length-splice,
}
use chatting_server_single.RingBuffer.{RingBuffer, size, put_bytes, push}
use chatting_server_single.RingBuffer.Invariant.{IsValid, contents, mod_wrap, masked, size_cases}
use chatting_server_single.RingBuffer.Written.{put_bytes_kept, put_bytes_stored}

pub length-contents : (r : RingBuffer) → length (contents r) ≡ size r
unfolding contents
length-contents r = length-tabulate (size r) _

pub length-put_bytes :
    (r : RingBuffer) (bytes : List ℕ) (i d n : ℕ)
    → length (put_bytes r bytes i d n) ≡ length r.buffer
unfolding put_bytes
length-put_bytes r bytes i d n = ground (
  arith,
  length-splice r.buffer i (slice bytes 0 n),
  length-splice (splice r.buffer i (slice bytes 0 d)) 0 (slice bytes d (n - d)),
  length-splice r.buffer i (slice bytes 0 d),
)

-- How many bytes of `bytes` fit.
abbrev pub accepted : RingBuffer → List ℕ → ℕ
accepted r bytes = min (length bytes) (r.max_size - size r)

module _ (r : RingBuffer) (v : IsValid r) (bytes : List ℕ) where
  -- The ring that `push` leaves, its calls replaced by the numbers that they return.
  abbrev first : ℕ
  first = (r.tail_ptr + 1) % r.buffer_size

  abbrev direct : ℕ
  direct = if leb first r.head_ptr then r.head_ptr - first else r.buffer_size - first

  abbrev pushed : RingBuffer
  pushed = record r {
    buffer = put_bytes r bytes first direct (accepted r bytes);
    tail_ptr = (r.tail_ptr + accepted r bytes) % r.buffer_size;
  }

  push-pushed : push r bytes ≡ (pushed, accepted r bytes)
  unfolding push size
  push-pushed =
      rw (
        masked v (r.tail_ptr + 1),
        masked v (r.tail_ptr + min (length bytes) (r.max_size - size r)),
      )

  pushed-IsValid : IsValid pushed
  pushed-IsValid = record {
    exponent = v.exponent;
    power = v.power;
    narrow = v.narrow;
    two = v.two;
    mask = v.mask;
    storage = length-put_bytes r bytes first direct (accepted r bytes) ∙ v.storage;
    head_in = v.head_in;
    tail_in = omega (arith, v.two);
  }

  size-pushed : size pushed ≡ size r + accepted r bytes
  size-pushed = omega (
    arith,
    v.mask,
    v.head_in,
    v.tail_in,
    v.two,
    size_cases v,
    size_cases pushed-IsValid,
    mod_wrap (r.tail_ptr + accepted r bytes) r.buffer_size,
  )

  fits : size r + accepted r bytes ≤ r.max_size
  fits = omega (arith, v.mask, v.head_in, v.tail_in, size_cases v)

  -- The byte after the last one held is the byte after `tail_ptr`.
  behind :
      (k : ℕ)
      → (r.head_ptr + 1 + (size r + k)) % r.buffer_size ≡ (r.tail_ptr + 1 + k) % r.buffer_size
  behind k = elim (size_cases v) [
    | inl (p, e) ↦ ap (λ n. n % r.buffer_size) (omega arith)
    | inr (p, e) ↦
        mod-eq-sub-mod {n = r.head_ptr + 1 + (size r + k)} {m = r.buffer_size}
          (omega (arith, v.head_in))
        ∙ ap (λ n. n % r.buffer_size) (omega (arith, v.head_in))
  ]

  contents-pushed : contents pushed ≡ contents r ++ slice bytes 0 (accepted r bytes)
  unfolding contents
  contents-pushed =
      ap (λ n. tabulate n (λ i. get_or pushed.buffer ((r.head_ptr + 1 + i) % r.buffer_size) 0))
        size-pushed
      ∙ tabulate-add (size r) (accepted r bytes) _
      ∙ ap₂ ◌++◌
          (tabulate-ext (size r) _ _
            (λ k p. put_bytes_kept r v bytes first direct (accepted r bytes) refl refl fits k p))
          (tabulate-ext (accepted r bytes) _ (λ k. get_or bytes (0 + k) 0)
            (λ k p.
              ap (λ j. get_or pushed.buffer j 0) (behind k)
              ∙ put_bytes_stored r v bytes first direct (accepted r bytes) refl refl fits k p
              ∙ ap (λ j. get_or bytes j 0) (omega arith)))

  -- On a valid ring `push` accepts as many bytes as there is room for, appends those to what the
  -- ring holds, and leaves it valid.
  pub push_refines :
      ((push r bytes).1 ≡ min (length bytes) (r.max_size - size r))
      × (contents (push r bytes).0 ≡ contents r ++ slice bytes 0 (push r bytes).1)
      × IsValid (push r bytes).0
  push_refines = rw push-pushed (refl, contents-pushed, pushed-IsValid)
