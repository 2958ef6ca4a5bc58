-- ===== src/Common/Tabulate.antt =====
-- A list given by its length and its entries: the view of a part of an array.
use Prim.Native.Nat.{ℕ, zero, suc, ◌+◌, ◌≤◌, ◌<◌}
use mathlib.Core.Path.{◌≡◌, refl, ap, ap₂, ◌∙◌}
use mathlib.Core.List.{List, [], ◌∷◌, ◌++◌}
use native.Mathlib.Omega.{arith}
use chatting_server_single.Common.Lists.{length, get_or, splice}
use chatting_server_single.Common.Lists.{
  get_or-splice_below, get_or-splice_above, get_or-splice_inside,
}

module _ {ℓ} {A : Type ℓ} where
  abbrev pub tabulate : ℕ → (ℕ → A) → List A
  tabulate zero f = []
  tabulate (suc n) f = f 0 ∷ tabulate n (λ i. f (suc i))

  pub length-tabulate : (n : ℕ) (f : ℕ → A) → length (tabulate n f) ≡ n
  length-tabulate zero f = refl
  length-tabulate (suc n) f = ap suc (length-tabulate n (λ i. f (suc i)))

  pub tabulate-ext :
      (n : ℕ) (f g : ℕ → A) → ((i : ℕ) → i < n → f i ≡ g i) → tabulate n f ≡ tabulate n g
  tabulate-ext zero f g h = refl
  tabulate-ext (suc n) f g h =
      ap₂ ◌∷◌ (h 0 (omega arith))
        (tabulate-ext n (λ i. f (suc i)) (λ i. g (suc i)) (λ i p. h (suc i) (omega arith)))

  pub tabulate-add :
      (m n : ℕ) (f : ℕ → A) → tabulate (m + n) f ≡ tabulate m f ++ tabulate n (λ i. f (m + i))
  tabulate-add zero n f =
      ap (λ k. tabulate k f) (omega arith)
      ∙ tabulate-ext n f (λ i. f (0 + i)) (λ i p. ap f (omega arith))
  tabulate-add (suc m) n f =
      ap (λ k. tabulate k f) step
      ∙ ap (λ l. f 0 ∷ l)
          (tabulate-add m n (λ i. f (suc i))
            ∙ ap (λ l. tabulate m (λ i. f (suc i)) ++ l)
                (tabulate-ext n (λ i. f (suc (m + i))) (λ i. f (suc m + i))
                  (λ i p. ap f (omega arith))))
    where
      step : suc m + n ≡ suc (m + n)
      step = omega arith

  pub tabulate-get_or : (xs : List A) (d : A) → tabulate (length xs) (λ i. get_or xs i d) ≡ xs
  tabulate-get_or [] d = refl
  tabulate-get_or (x ∷ xs) d = ap (λ l. x ∷ l) (tabulate-get_or xs d)

  pub get_or-tabulate :
      (n : ℕ) (f : ℕ → A) (i : ℕ) (d : A) → i < n → get_or (tabulate n f) i d ≡ f i
  get_or-tabulate zero f i d h = absurd (omega arith)
  get_or-tabulate (suc n) f zero d h = refl
  get_or-tabulate (suc n) f (suc i) d h = get_or-tabulate n (λ k. f (suc k)) i d (omega arith)

-- The `n` bytes of `buf` from index `i` on.
abbrev pub slice : List ℕ → ℕ → ℕ → List ℕ
slice buf i n = tabulate n (λ k. get_or buf (i + k) 0)

pub length-slice : (buf : List ℕ) (i n : ℕ) → length (slice buf i n) ≡ n
length-slice buf i n = length-tabulate n (λ k. get_or buf (i + k) 0)

pub slice-add :
    (buf : List ℕ) (i m n : ℕ) → slice buf i (m + n) ≡ slice buf i m ++ slice buf (i + m) n
slice-add buf i m n =
    tabulate-add m n (λ k. get_or buf (i + k) 0)
    ∙ ap (λ l. slice buf i m ++ l)
        (tabulate-ext n (λ k. get_or buf (i + (m + k)) 0) (λ k. get_or buf (i + m + k) 0)
          (λ k p. ap (λ j. get_or buf j 0) (omega arith)))

pub slice-splice_self :
    (buf : List ℕ) (i : ℕ) (xs : List ℕ)
    → i + length xs ≤ length buf
    → slice (splice buf i xs) i (length xs) ≡ xs
slice-splice_self buf i xs fits =
    tabulate-ext (length xs) (λ k. get_or (splice buf i xs) (i + k) 0) (λ k. get_or xs k 0)
      (λ k p. get_or-splice_inside buf i xs k 0 fits p)
    ∙ tabulate-get_or xs 0

-- A part that lies below the written one, or above it, is as it was.
pub slice-splice_below :
    (buf : List ℕ) (i : ℕ) (xs : List ℕ) (j n : ℕ)
    → j + n ≤ i
    → slice (splice buf i xs) j n ≡ slice buf j n
slice-splice_below buf i xs j n h =
    tabulate-ext n (λ k. get_or (splice buf i xs) (j + k) 0) (λ k. get_or buf (j + k) 0)
      (λ k p. get_or-splice_below buf i xs (j + k) 0 (omega arith))

pub slice-splice_above :
    (buf : List ℕ) (i : ℕ) (xs : List ℕ) (j n : ℕ)
    → i + length xs ≤ j
    → slice (splice buf i xs) j n ≡ slice buf j n
slice-splice_above buf i xs j n h =
    tabulate-ext n (λ k. get_or (splice buf i xs) (j + k) 0) (λ k. get_or buf (j + k) 0)
      (λ k p. get_or-splice_above buf i xs (j + k) 0 (omega arith))

pub slice-whole : (xs : List ℕ) → slice xs 0 (length xs) ≡ xs
slice-whole [] = refl
slice-whole (x ∷ xs) =
    ap (λ l. x ∷ l)
      (tabulate-ext (length xs) (λ k. get_or (x ∷ xs) (0 + suc k) 0) (λ k. get_or xs (0 + k) 0)
          (λ k p. ap (λ j. get_or (x ∷ xs) j 0) {x = 0 + suc k} {y = suc (0 + k)} (omega arith))
        ∙ slice-whole xs)
