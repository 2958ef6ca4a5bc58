-- ===== src/RingBuffer/Invariant.antt =====
-- The representation invariant of a ring, and its sizes as plain numbers.
use Prim.Native.Nat.add
use native.Mathlib.Nat.{
  mod-eq_of_lt, mod-eq-sub-mod, pow-suc, one-le-pow, mul-add-mod_self_right, pow-le-pow_right,
}
use native.Mathlib.Decide.{dec_lt}
use chatting_server_single.Common.{
  ℕ, zero, suc, ◌+◌, ◌-◌, ◌*◌, ◌%◌, ◌^◌, ◌≤◌, ◌<◌, ◌≡◌, ◌⊎◌, inl, inr, ◌∙◌, ap, sym, arith, List,
  bit_and, bit_and_mask, length, tabulate, get_or, sub64,
}
use chatting_server_single.RingBuffer.{RingBuffer, size, free_size}

pub record IsValid (r : RingBuffer) : Type 0 where
  pub exponent : ℕ
  pub power : r.buffer_size ≡ 2 ^ exponent
  pub narrow : exponent ≤ 31
  pub two : 2 ≤ r.buffer_size
  pub mask : r.max_size ≡ r.buffer_size - 1
  pub storage : length r.buffer ≡ r.buffer_size
  pub head_in : r.head_ptr < r.buffer_size
  pub tail_in : r.tail_ptr < r.buffer_size

-- So a size fits an `int`.
pub small : {r : RingBuffer} → IsValid r → r.buffer_size ≤ 2 ^ 31
small v = rw v.power (pow-le-pow_right {n = 2} (omega arith) v.narrow)

-- A pointer that went on by at most one round.
pub mod_wrap : (x m : ℕ) → x < m + m → ((x < m) × (x % m ≡ x)) ⊎ ((m ≤ x) × (x % m ≡ x - m))
mod_wrap x m h = elim (dec_lt x m) [
  | yes p ↦ inl (p, mod-eq_of_lt p)
  | no p ↦ inr (
    omega arith,
    mod-eq-sub-mod {n = x} {m = m} (omega arith) ∙ mod-eq_of_lt {n = x - m} {m = m} (omega arith),
  )
]

pub masked : {r : RingBuffer} → IsValid r → (x : ℕ) → bit_and x r.max_size ≡ x % r.buffer_size
masked {r} v x =
    ap (λ m. bit_and x m) (v.mask ∙ ap (λ m. m - 1) v.power)
    ∙ bit_and_mask v.exponent x
    ∙ ap (λ m. x % m) (sym v.power)

pow_split : (k j : ℕ) → (q : ℕ) × (2 ^ (k + j) ≡ q * 2 ^ k + 2 ^ k)
pow_split zero j = (2 ^ j - 1, ap (λ n. 2 ^ n) (add.zero j) ∙ omega (arith, one-le-pow j 2))
pow_split (suc k) j =
    let (q, e) = pow_split k j in
    (
      q,
      ap (λ n. 2 ^ n) suc-add
          ∙ omega (arith, e, pow-suc 2 (k + j), ap (λ (n : ℕ). q * n) (pow-suc 2 k), pow-suc 2 k),
    )
  where
    suc-add : suc k + j ≡ suc (k + j)
    suc-add = omega arith

-- 64 bits hold a whole number of rounds, at least one.
rounds : {r : RingBuffer} → IsValid r → (q : ℕ) × (2 ^ 64 ≡ q * r.buffer_size + r.buffer_size)
rounds {r} v =
    let (q, e) = pow_split v.exponent (64 - v.exponent) in
    (q, ap (λ n. 2 ^ n) width ∙ e ∙ rw v.power)
  where
    width : 64 ≡ v.exponent + (64 - v.exponent)
    width = omega (arith, v.narrow)

-- The number of bytes held, with the two ways that the pointers can lie.
pub size_cases :
    {r : RingBuffer}
    → IsValid r
    → ((r.head_ptr ≤ r.tail_ptr) × (size r ≡ r.tail_ptr - r.head_ptr))
      ⊎ ((r.tail_ptr < r.head_ptr) × (size r ≡ r.tail_ptr + r.buffer_size - r.head_ptr))
unfolding size
size_cases {r} v = ground (
  arith,
  masked v (r.tail_ptr + r.buffer_size - r.head_ptr),
  mod_wrap (r.tail_ptr + r.buffer_size - r.head_ptr) r.buffer_size (omega arith),
)

unfoldable pub contents : RingBuffer → List ℕ
contents r = tabulate (size r) (λ i. get_or r.buffer ((r.head_ptr + 1 + i) % r.buffer_size) 0)

-- On a valid ring the unparenthesised `freeSize()` and `size()` add up to the capacity.
pub free_size-size : {r : RingBuffer} → IsValid r → free_size r + size r ≡ r.max_size
unfolding free_size
free_size-size {r} v =
    let (q, f) = rounds v in
    elim (size_cases v) [
      | inl (p, e) ↦ omega (
        arith,
        masked v (sub64 r.max_size (r.tail_ptr + r.buffer_size - r.head_ptr)),
        mul-add-mod_self_right q r.buffer_size (r.buffer_size - 1 - (r.tail_ptr - r.head_ptr)),
        ap (λ (n : ℕ). n % r.buffer_size) (before q p f),
        mod-eq_of_lt {n = r.buffer_size - 1 - (r.tail_ptr - r.head_ptr)} {m = r.buffer_size}
            (omega arith),
      )
      | inr (p, e) ↦ omega (
        arith,
        masked v (sub64 r.max_size (r.tail_ptr + r.buffer_size - r.head_ptr)),
        ap (λ (n : ℕ). n % r.buffer_size) (after q p f),
        mod-eq_of_lt {n = r.max_size - (r.tail_ptr + r.buffer_size - r.head_ptr)}
            {m = r.buffer_size} (omega arith),
      )
    ]
  where
    before :
        (q : ℕ)
        → r.head_ptr ≤ r.tail_ptr
        → 2 ^ 64 ≡ q * r.buffer_size + r.buffer_size
        → sub64 r.max_size (r.tail_ptr + r.buffer_size - r.head_ptr)
          ≡ q * r.buffer_size + (r.buffer_size - 1 - (r.tail_ptr - r.head_ptr))
    before q p f = omega (arith, v.mask, v.tail_in, v.head_in, v.two)

    after :
        (q : ℕ)
        → r.tail_ptr < r.head_ptr
        → 2 ^ 64 ≡ q * r.buffer_size + r.buffer_size
        → sub64 r.max_size (r.tail_ptr + r.buffer_size - r.head_ptr)
          ≡ r.max_size - (r.tail_ptr + r.buffer_size - r.head_ptr)
    after q p f = omega (arith, v.mask, v.tail_in, v.head_in, v.two)
