-- ===== src/Serializer/Sealing/Checksum.antt =====
-- The checksum of serializer.h, a sum in a `char`.
use chatting_server_single.Common.{ℕ, ◌+◌, ◌-◌, ◌^◌, ◌<◌, ◌≡◌, arith, List, [], ◌∷◌, u8, AllBytes}
use chatting_server_single.Serializer.Sealing.{sum_bytes, subtract_bytes}

-- The sum of bytes as a plain number.
total : List ℕ → ℕ
total [] = 0
total (x ∷ xs) = x + total xs

sum_bytes-total : (c : ℕ) (xs : List ℕ) → u8 (sum_bytes c xs) ≡ u8 (c + total xs)
unfolding sum_bytes total
sum_bytes-total c [] = omega arith
sum_bytes-total c (x ∷ xs) = omega (arith, sum_bytes-total (u8 (c + x)) xs)

pub sum_bytes-lt : (c : ℕ) (xs : List ℕ) → c < 2 ^ 8 → sum_bytes c xs < 2 ^ 8
unfolding sum_bytes
sum_bytes-lt c [] h = h
sum_bytes-lt c (x ∷ xs) h = sum_bytes-lt (u8 (c + x)) xs (omega arith)

subtract_bytes-total :
    (c : ℕ) (xs : List ℕ)
    → c < 2 ^ 8
    → AllBytes xs
    → (u8 (subtract_bytes c xs + total xs) ≡ c) × (subtract_bytes c xs < 2 ^ 8)
unfolding subtract_bytes total
subtract_bytes-total c [] low h = omega arith
subtract_bytes-total c (x ∷ xs) low h =
    omega (arith, subtract_bytes-total (u8 (c + 2 ^ 8 - x)) xs (omega arith) h.1)

-- Taking the bytes off their checksum leaves nothing.
pub checksum_lem : (xs : List ℕ) → AllBytes xs → subtract_bytes (sum_bytes 0 xs) xs ≡ 0
checksum_lem xs h = omega (
  arith,
  sum_bytes-total 0 xs,
  sum_bytes-lt 0 xs (omega arith),
  subtract_bytes-total (sum_bytes 0 xs) xs (sum_bytes-lt 0 xs (omega arith)) h,
)
