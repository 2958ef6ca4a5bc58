-- ===== src/Common/Bits.antt =====
-- Laws of `&` with a mask and of `^` at variables, from the recursion on binary digits.
use Prim.Native.Nat.{
  ℕ, zero, suc, ◌+◌, ◌-◌, ◌*◌, ◌/◌, ◌%◌, ◌^◌, ◌≤◌, ◌<◌, min, differ, max, bit_and, bit_or, bit_xor,
  bitwise, digits, bit_and-bitwise, bit_or-bitwise, bit_xor-bitwise,
}
use mathlib.Core.Path.{◌≡◌, refl, ap, ◌∙◌}
use native.Mathlib.Nat.{pow-suc, one-le-pow, le_refl}
use native.Mathlib.Omega.{arith}

module _ (other : ℕ → ℕ) (op : ℕ → ℕ → ℕ) where
  -- From enough fuel on, one more unit changes nothing, and so any number of them.
  fuel_once : (k x y : ℕ) → x ≤ k → digits other op (suc k) x y ≡ digits other op k x y
  fuel_once zero zero y h = refl
  fuel_once zero (suc x) y h = absurd (omega arith)
  fuel_once (suc k) zero y h = refl
  fuel_once (suc k) (suc x) y h = rw (fuel_once k (suc x / 2) (y / 2) (omega arith))

  fuel_more : (j k n x y : ℕ) → n ≡ k + j → x ≤ k → digits other op n x y ≡ digits other op k x y
  fuel_more zero k n x y e h = ap (λ m. digits other op m x y) (omega arith)
  fuel_more (suc j) k zero x y e h = absurd (omega arith)
  fuel_more (suc j) k (suc n) x y e h =
      fuel_once n x y (omega arith) ∙ fuel_more j k n x y (omega arith) h

  lowest_digit :
      (x y : ℕ)
      → bitwise other op (suc x) y
        ≡ bitwise other op (suc x / 2) (y / 2) * 2 + op (suc x % 2) (y % 2)
  lowest_digit x y = ap (λ q. q * 2 + op (suc x % 2) (y % 2)) enough
    where
      enough : digits other op x (suc x / 2) (y / 2) ≡ bitwise other op (suc x / 2) (y / 2)
      enough =
          fuel_more (x - suc x / 2) (suc x / 2) x (suc x / 2) (y / 2) (omega arith) (omega arith)

and_by_digits : (x y : ℕ) → bit_and x y ≡ min (x % 2) (y % 2) + 2 * bit_and (x / 2) (y / 2)
and_by_digits zero y = simp bit_and-bitwise (omega arith)
and_by_digits (suc x) y = omega (
  arith,
  bit_and-bitwise (suc x) y,
  bit_and-bitwise (suc x / 2) (y / 2),
  lowest_digit (λ _. 0) min x y,
)

-- The lowest digit of an exclusive or.
abbrev digit_xor : ℕ → ℕ → ℕ
digit_xor a b = (a % 2 + b % 2) % 2

differ_below_two : (x y : ℕ) → x < 2 → y < 2 → differ x y ≡ (x + y) % 2
differ_below_two zero y p q = omega arith
differ_below_two (suc zero) zero p q = refl
differ_below_two (suc zero) (suc zero) p q = refl
differ_below_two (suc zero) (suc (suc y)) p q = absurd (omega arith)
differ_below_two (suc (suc x)) y p q = absurd (omega arith)

bit_xor_step : (a b : ℕ) → bit_xor a b ≡ bit_xor (a / 2) (b / 2) * 2 + digit_xor a b
bit_xor_step zero b = simp bit_xor-bitwise (omega arith)
bit_xor_step (suc a) b = simp bit_xor-bitwise (
    lowest_digit (λ y. y) differ a b
    ∙ ap (λ d. bitwise (λ y. y) differ (suc a / 2) (b / 2) * 2 + d)
        (differ_below_two (suc a % 2) (b % 2) (omega arith) (omega arith)))

bit_and-zero_below : (n a : ℕ) → a ≤ n → bit_and a 0 ≡ 0
bit_and-zero_below n zero h = refl
bit_and-zero_below zero (suc a) h = absurd (omega arith)
bit_and-zero_below (suc n) (suc a) h =
    omega (arith, and_by_digits (suc a) 0, bit_and-zero_below n (suc a / 2) (omega arith))

bit_and_split : (k q r : ℕ) → r < 2 ^ k → bit_and (q * 2 ^ k + r) (2 ^ k - 1) ≡ r
bit_and_split zero q r h =
    omega (arith, bit_and-zero_below (q * 2 ^ 0 + r) (q * 2 ^ 0 + r) (le_refl _))
bit_and_split (suc k) q r h = ground (
  arith,
  and_by_digits (q * 2 ^ suc k + r) (2 ^ suc k - 1),
  doubled,
  pow-suc 2 k,
  one-le-pow k 2,
  bit_and_split k q (r / 2) (omega (arith, pow-suc 2 k)),
)
  where
    doubled : q * 2 ^ suc k ≡ 2 * (q * 2 ^ k)
    doubled = omega (arith, ap (λ (t : ℕ). q * t) (pow-suc 2 k))

-- A mask of `k` low bits leaves the remainder by `2 ^ k`.
pub bit_and_mask : (k a : ℕ) → bit_and a (2 ^ k - 1) ≡ a % 2 ^ k
bit_and_mask k a = ground (arith, one-le-pow k 2, bit_and_split k (a / 2 ^ k) (a % 2 ^ k))

-- One digit of cancelling, the other digits given.
halves : (a b : ℕ) → bit_xor (bit_xor (a / 2) (b / 2)) (b / 2) ≡ a / 2 → bit_xor (bit_xor a b) b ≡ a
halves a b ih = omega (arith, bit_xor_step (bit_xor a b) b, ih', bit_xor_step a b)
  where
    half : bit_xor a b / 2 ≡ bit_xor (a / 2) (b / 2)
    half = omega (arith, bit_xor_step a b)

    ih' : bit_xor (bit_xor a b / 2) (b / 2) ≡ a / 2
    ih' = rw half ih

-- The second exclusive or undoes the first.
xor_cancel_below : (n a b : ℕ) → a + b ≤ n → bit_xor (bit_xor a b) b ≡ a
xor_cancel_below zero zero zero p = refl
xor_cancel_below zero zero (suc b) p = absurd (omega arith)
xor_cancel_below zero (suc a) b p = absurd (omega arith)
xor_cancel_below (suc n) zero zero p = refl
xor_cancel_below (suc n) (suc a) b p =
    halves (suc a) b (xor_cancel_below n (suc a / 2) (b / 2) (omega arith))
xor_cancel_below (suc n) zero (suc b) p =
    halves 0 (suc b) (xor_cancel_below n 0 (suc b / 2) (omega arith))

pub bit_xor_cancel : (a b : ℕ) → bit_xor (bit_xor a b) b ≡ a
bit_xor_cancel a b = xor_cancel_below (a + b) a b (omega arith)

pub bit_xor-lt : (k a b : ℕ) → a < 2 ^ k → b < 2 ^ k → bit_xor a b < 2 ^ k
bit_xor-lt zero zero zero p q = omega arith
bit_xor-lt zero (suc a) b p q = absurd (omega arith)
bit_xor-lt zero zero (suc b) p q = absurd (omega arith)
bit_xor-lt (suc k) a b p q = omega (
  arith,
  bit_xor_step a b,
  bit_xor-lt k (a / 2) (b / 2) (omega (arith, pow-suc 2 k)) (omega (arith, pow-suc 2 k)),
  pow-suc 2 k,
)

or_by_digits : (x y : ℕ) → bit_or x y ≡ max (x % 2) (y % 2) + 2 * bit_or (x / 2) (y / 2)
or_by_digits zero y = simp bit_or-bitwise (omega arith)
or_by_digits (suc x) y = omega (
  arith,
  bit_or-bitwise (suc x) y,
  bit_or-bitwise (suc x / 2) (y / 2),
  lowest_digit (λ d. d) max x y,
)

-- Digits that do not overlap are added.
pub bit_or_apart : (k a q : ℕ) → a < 2 ^ k → bit_or a (q * 2 ^ k) ≡ a + q * 2 ^ k
bit_or_apart zero zero q h = simp bit_or-bitwise (omega arith)
bit_or_apart zero (suc a) q h = absurd (omega arith)
bit_or_apart (suc k) a q h = omega (
  arith,
  or_by_digits a (q * 2 ^ suc k),
  doubled,
  ap (λ t. bit_or (a / 2) t) half,
  bit_or_apart k (a / 2) q (omega (arith, pow-suc 2 k)),
)
  where
    doubled : q * 2 ^ suc k ≡ 2 * (q * 2 ^ k)
    doubled = omega (arith, ap (λ (t : ℕ). q * t) (pow-suc 2 k))

    half : q * 2 ^ suc k / 2 ≡ q * 2 ^ k
    half = omega (arith, doubled)
