-- ===== src/RingBuffer/Pop.antt =====
-- `front` and `pop` on a valid ring, as operations on the list of bytes that the ring holds.
use native.Mathlib.Nat.{mod-eq-sub-mod}
use chatting_server_single.Common.{
  ℕ, ◌+◌, ◌-◌, ◌%◌, ◌≤◌, ◌<◌, ◌≡◌, sym, ◌∙◌, ap, ap₂, ◌⊎◌, inl, inr, arith, min, ◌++◌, leb, leb→le,
  false, if◌then◌else◌, length, get_or, tabulate, tabulate-ext, tabulate-add, length-tabulate,
  Bool-cases,
}
use chatting_server_single.RingBuffer.{RingBuffer, size, front, pop}
use chatting_server_single.RingBuffer.Invariant.{IsValid, contents, mod_wrap, masked, size_cases}

module _ (r : RingBuffer) (v : IsValid r) (n : ℕ) where
  abbrev taken : ℕ
  taken = min n (size r)

  abbrev popped : RingBuffer
  popped = record r { head_ptr = (r.head_ptr + taken) % r.buffer_size }

  pop-popped : pop r n ≡ (popped, front r n)
  unfolding pop size
  pop-popped = rw (masked v (r.head_ptr + min n (size r)))

  popped-IsValid : IsValid popped
  popped-IsValid = record {
    exponent = v.exponent;
    power = v.power;
    narrow = v.narrow;
    two = v.two;
    mask = v.mask;
    storage = v.storage;
    head_in = omega (arith, v.two);
    tail_in = v.tail_in;
  }

  size-popped : size popped ≡ size r - taken
  size-popped = omega (
    arith,
    v.mask,
    v.head_in,
    v.tail_in,
    v.two,
    size_cases v,
    size_cases popped-IsValid,
    mod_wrap (r.head_ptr + taken) r.buffer_size,
  )

  abbrev oldest : ℕ
  oldest = (r.head_ptr + 1) % r.buffer_size

  abbrev newest : ℕ
  newest = (r.tail_ptr + 1) % r.buffer_size

  abbrev direct : ℕ
  direct = if leb oldest newest then newest - oldest else r.buffer_size - oldest

  -- The bytes held lie in one piece, or in two of which the first ends the buffer.
  pieces : (size r ≤ direct) ⊎ (oldest + direct ≡ r.buffer_size)
  pieces = ground (
    arith,
    size_cases v,
    mod_wrap (r.head_ptr + 1) r.buffer_size,
    mod_wrap (r.tail_ptr + 1) r.buffer_size,
  )

  near : (k : ℕ) → k < taken → k < direct → oldest + k ≡ (r.head_ptr + 1 + k) % r.buffer_size
  near k p q = ground (
    arith,
    size_cases v,
    mod_wrap (r.head_ptr + 1) r.buffer_size,
    mod_wrap (r.tail_ptr + 1) r.buffer_size,
    mod_wrap (r.head_ptr + 1 + k) r.buffer_size,
  )

  far : (k : ℕ) → direct + k < taken → 0 + k ≡ (r.head_ptr + 1 + (direct + k)) % r.buffer_size
  far k p = omega (
    arith,
    pieces,
    v.head_in,
    v.tail_in,
    size_cases v,
    mod_wrap (r.head_ptr + 1) r.buffer_size,
    mod_wrap (r.head_ptr + 1 + (direct + k)) r.buffer_size,
  )

  below : leb taken direct ≡ false → direct < taken
  below e = ground arith

  -- `front` copies the oldest bytes out.
  front_lem :
      front r n ≡ tabulate taken (λ i. get_or r.buffer ((r.head_ptr + 1 + i) % r.buffer_size) 0)
  unfolding front size
  front_lem =
      rw (masked v (r.head_ptr + 1), masked v (r.tail_ptr + 1))
        (elim (Bool-cases (leb taken direct)) [
          | inl one ↦ rw one (
              tabulate-ext taken _ _ (λ k p.
                ap (λ m. get_or r.buffer m 0) (near k p (omega (arith, leb→le taken direct one)))))
          | inr two ↦ rw two (
              ap₂ ◌++◌
                (tabulate-ext direct _ _
                  (λ k p. ap (λ m. get_or r.buffer m 0) (near k (omega (arith, below two)) p)))
                (tabulate-ext (taken - direct) _ _
                  (λ k p. ap (λ m. get_or r.buffer m 0) (far k (omega arith))))
              ∙ sym (
                  tabulate-add direct (taken - direct)
                    (λ i. get_or r.buffer ((r.head_ptr + 1 + i) % r.buffer_size) 0))
              ∙ ap (λ m. tabulate m (λ i. get_or r.buffer ((r.head_ptr + 1 + i) % r.buffer_size) 0))
                  (omega (arith, below two)))
        ])

  -- The pointer that went on by `taken` is at the byte before the rest.
  behind :
      (k : ℕ)
      → k < size r - taken
      → (r.head_ptr + 1 + (taken + k)) % r.buffer_size ≡ (popped.head_ptr + 1 + k) % r.buffer_size
  behind k p =
      elim (mod_wrap (r.head_ptr + taken) r.buffer_size
        (omega (arith, v.head_in, v.tail_in, size_cases v))) [
          | inl (q, e) ↦ ap (λ m. m % r.buffer_size) (omega arith)
          | inr (q, e) ↦
              mod-eq-sub-mod {n = r.head_ptr + 1 + (taken + k)} {m = r.buffer_size} (omega arith)
              ∙ ap (λ m. m % r.buffer_size) (omega arith)
        ]

  pop_splits : contents r ≡ front r n ++ contents popped
  unfolding contents
  pop_splits =
      ap (λ m. tabulate m held) whole
      ∙ tabulate-add taken (size r - taken) held
      ∙ ap₂ ◌++◌ (sym front_lem) (
          tabulate-ext (size r - taken) _ _ (λ k p. ap (λ m. get_or r.buffer m 0) (behind k p))
          ∙ ap
              (λ m. tabulate m (λ i. get_or r.buffer ((popped.head_ptr + 1 + i) % r.buffer_size) 0))
              (sym size-popped))
    where
      held : ℕ → ℕ
      held i = get_or r.buffer ((r.head_ptr + 1 + i) % r.buffer_size) 0

      whole : size r ≡ taken + (size r - taken)
      whole = omega arith

  length-front : length (front r n) ≡ taken
  length-front = rw front_lem (length-tabulate taken _)

  -- On a valid ring `pop` hands over the oldest bytes, as many as are asked for and held; the ring
  -- holds the others after it and stays valid.
  pub pop_refines :
      (length (pop r n).1 ≡ min n (size r))
      × (contents r ≡ (pop r n).1 ++ contents (pop r n).0)
      × IsValid (pop r n).0
  pop_refines = rw pop-popped (length-front, pop_splits, popped-IsValid)
