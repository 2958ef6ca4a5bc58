-- ===== src/RingBuffer/Rear.antt =====
-- The pointer moves of `MoveRear` and `MoveFront`, a fresh ring, and the path of received bytes:
-- the socket fills the free room behind the ring's back, and `MoveRear` takes it over.
use native.Mathlib.Nat.{pow-le-pow_right, one-le-pow}
use chatting_server_single.Common.{
  ℕ, ◌+◌, ◌-◌, ◌%◌, ◌^◌, ◌≤◌, ◌≡◌, refl, ◌∙◌, ap, arith, min, List, [], bit_and, length, pos,
  tabulate, get_or, le→leb,
}
use chatting_server_single.RingBuffer.{
  RingBuffer, init, size, next_of, direct_enqueue_size, put_bytes, push, move_rear, int_max, clear,
}
use chatting_server_single.RingBuffer.Invariant.{IsValid, contents, size_cases, small}
use chatting_server_single.RingBuffer.Push.{length-put_bytes}

empty_lem : {r : RingBuffer} → IsValid r → r.head_ptr ≡ r.tail_ptr → contents r ≡ []
unfolding contents
empty_lem {r} v e =
    let none_held : size r ≡ 0 = omega (arith, size_cases v) in
    ap (λ n. tabulate n (λ i. get_or r.buffer ((r.head_ptr + 1 + i) % r.buffer_size) 0)) none_held

-- Where `pow(2, ceil(log2(n)))` is a power of two from 2 to 2 ^ 31 and the allocator returns as
-- many bytes as are asked for, a fresh ring is valid and empty.
pub init-IsValid :
    (ceil_pow2 : ℕ → ℕ) (storage : ℕ → List ℕ) (n k : ℕ)
    → ceil_pow2 n ≡ 2 ^ k
    → 1 ≤ k
    → k ≤ 31
    → ((m : ℕ) → length (storage m) ≡ m)
    → IsValid (init ceil_pow2 storage n) × (contents (init ceil_pow2 storage n) ≡ [])
unfolding init
init-IsValid ceil_pow2 storage n k e low high fits = (init_valid, empty_lem init_valid refl)
  where
    init_valid : IsValid (init ceil_pow2 storage n)
    init_valid = record {
      exponent = k;
      power = e;
      narrow = high;
      two = rw e (pow-le-pow_right {n = 2} (omega arith) low);
      mask = refl;
      storage = fits (ceil_pow2 n);
      head_in = rw e (one-le-pow k 2 (omega arith));
      tail_in = rw e (one-le-pow k 2 (omega arith));
    }

-- `clear` leaves a valid ring valid, with no byte in it.
pub clear_lem : {r : RingBuffer} → IsValid r → IsValid (clear r) × (contents (clear r) ≡ [])
unfolding clear
clear_lem {r} v = (cleared, empty_lem cleared refl)
  where
    cleared : IsValid (record r { head_ptr = r.tail_ptr })
    cleared = record {
      exponent = v.exponent;
      power = v.power;
      narrow = v.narrow;
      two = v.two;
      mask = v.mask;
      storage = v.storage;
      head_in = v.tail_in;
      tail_in = v.tail_in;
    }

-- The ring after the socket has put `bytes` into the room that `tail`, `DirectEnqueueSize` and
-- `bufferPtr` describe.
unfoldable pub scattered : RingBuffer → List ℕ → RingBuffer
scattered r bytes = record r {
  buffer = put_bytes r bytes (next_of r r.tail_ptr) (direct_enqueue_size r) (length bytes);
}

-- A move by what there is room for is made in full.
pub move_rear_lem :
    (r : RingBuffer) (n : ℕ)
    → IsValid r
    → n + size r ≤ r.max_size
    → move_rear r (pos n) ≡ (record r { tail_ptr = bit_and (r.tail_ptr + n) r.max_size }, pos n)
unfolding move_rear size
move_rear_lem r n v room =
    rw (le→leb (n + 0) (min (r.max_size - size r) int_max + 0) (omega (arith, v.mask, small v)))
      (rw (le→leb 0 (r.tail_ptr + n) (omega arith)) (rw no_wrap))
  where
    no_wrap : (r.tail_ptr + n - 0) % 2 ^ 64 ≡ r.tail_ptr + n
    no_wrap = omega (arith, v.mask, small v, v.tail_in)

-- Bytes that fit and are received into the free room of a valid ring, round its end, and are then
-- taken over by `MoveRear`, leave the ring as `push` of these bytes does.
pub move_rear-scattered :
    (r : RingBuffer) (bytes : List ℕ)
    → IsValid r
    → length bytes + size r ≤ r.max_size
    → move_rear (scattered r bytes) (pos (length bytes)) ≡ ((push r bytes).0, pos (push r bytes).1)
unfolding scattered push direct_enqueue_size size
move_rear-scattered r bytes v room =
    move_rear_lem (scattered r bytes) (length bytes) scattered-IsValid room ∙ rw fit
  where
    fit : min (length bytes) (r.max_size - size r) ≡ length bytes
    fit = omega arith

    scattered-IsValid : IsValid (scattered r bytes)
    scattered-IsValid = record {
      exponent = v.exponent;
      power = v.power;
      narrow = v.narrow;
      two = v.two;
      mask = v.mask;
      storage =
          length-put_bytes r bytes (next_of r r.tail_ptr) (direct_enqueue_size r) (length bytes)
          ∙ v.storage;
      head_in = v.head_in;
      tail_in = v.tail_in;
    }
