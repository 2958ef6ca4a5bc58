-- ===== src/Common/Totals.antt =====
-- What the threads of a system add up to, when each has a weight.
use Prim.Native.Nat.{ℕ, zero, suc, ◌+◌, ◌≤◌, ◌<◌}
use mathlib.Core.Path.{◌≡◌, refl, sym, ◌∙◌}
use mathlib.Core.Logic.{◌≢◌, inl, inr}
use mathlib.Core.Bool.{false≢true}
use native.Mathlib.Decide.{ℕ_discrete}
use native.Mathlib.Omega.{arith}
use chatting_server_single.Common.Tests.{◌==◌, ==_iff, if◌then◌else◌, Bool-cases}

-- Thread `i` goes to `a`, the others stay.
abbrev pub replaced {ℓ} : {A : Type ℓ} → (ℕ → A) → ℕ → A → ℕ → A
replaced f i a j = if j == i then a else f j

module _ {ℓ} {A : Type ℓ} (w : A → ℕ) where
  unfoldable pub weight : (ℕ → A) → ℕ → ℕ
  weight f zero = 0
  weight f (suc n) = w (f n) + weight f n

  weight-above :
      (f : ℕ → A) (i : ℕ) (a : A) (n : ℕ) → n ≤ i → weight (replaced f i a) n ≡ weight f n
  unfolding weight
  weight-above f i a zero h = refl
  weight-above f i a (suc n) h = ground (arith, weight-above f i a n)

  -- The new weight takes the place of the old one.
  pub weight-replaced :
      (f : ℕ → A) (i : ℕ) (a : A) (n : ℕ)
      → i < n
      → weight (replaced f i a) n + w (f i) ≡ weight f n + w a
  unfolding weight
  weight-replaced f i a zero h = absurd (omega arith)
  weight-replaced f i a (suc n) h = elim (ℕ_discrete n i) [
    | yes last ↦ ground (arith, weight-above f i a n)
    | no other ↦ ground (arith, weight-replaced f i a n)
  ]

  pub weight-ge : (f : ℕ → A) (i n : ℕ) → i < n → w (f i) ≤ weight f n
  unfolding weight
  weight-ge f i zero h = absurd (omega arith)
  weight-ge f i (suc n) h = elim (ℕ_discrete n i) [
    | yes last ↦ ground arith
    | no other ↦ ground (arith, weight-ge f i n)
  ]

  -- Two threads count twice.
  pub weight-two : (f : ℕ → A) (i j n : ℕ) → i < n → j < n → i ≢ j → w (f i) + w (f j) ≤ weight f n
  unfolding weight
  weight-two f i j zero h k ne = absurd (omega arith)
  weight-two f i j (suc n) h k ne = elim (ℕ_discrete n i) [
    | yes last ↦ ground (arith, weight-ge f j n)
    | no other ↦ elim (ℕ_discrete n j) [
      | yes last ↦ ground (arith, weight-ge f i n)
      | no other' ↦ ground (arith, weight-two f i j n)
    ]
  ]

  pub weight-le : ((a : A) → w a ≤ 1) → (f : ℕ → A) (n : ℕ) → weight f n ≤ n
  unfolding weight
  weight-le small f zero = omega arith
  weight-le small f (suc n) = omega (arith, small (f n), weight-le small f n)

  pub weight-none : (f : ℕ → A) (n : ℕ) → ((i : ℕ) → i < n → w (f i) ≡ 0) → weight f n ≡ 0
  unfolding weight
  weight-none f zero h = refl
  weight-none f (suc n) h =
      omega (arith, h n (omega arith), weight-none f n (λ i p. h i (omega arith)))

-- What holds of the new entry, and of the others, holds of all.
pub replaced-cases {ℓ κ} :
    {A : Type ℓ} (P : A → Type κ) (f : ℕ → A) (i : ℕ) (a : A) (j : ℕ)
    → (j ≡ i → P a)
    → (j ≢ i → P (f j))
    → P (replaced f i a j)
replaced-cases P f i a j here there = elim (Bool-cases (j == i)) [
  | inl e ↦ rw e (here ((==_iff j i).0 e))
  | inr e ↦ rw e (there (λ same. false≢true (sym e ∙ (==_iff j i).1 same)))
]
