-- ===== src/Common/Lists.antt =====
-- Lists measured and indexed by native numbers, and the overwriting of a part of a list.
use Prim.Native.Nat.{ℕ, zero, suc, ◌+◌, ◌≤◌, ◌<◌}
use mathlib.Core.Path.{◌≡◌, refl, ap, ◌∙◌}
use mathlib.Core.Logic.{◌≢◌}
use mathlib.Core.List.{List, [], ◌∷◌, ◌++◌, map}
use mathlib.Core.Option.{Option, none, some}
use native.Mathlib.Omega.{arith}

module _ {ℓ} {A : Type ℓ} where
  abbrev pub length : List A → ℕ
  length [] = 0
  length (x ∷ xs) = suc (length xs)

  abbrev pub get_or : List A → ℕ → A → A
  get_or [] i d = d
  get_or (x ∷ xs) zero d = x
  get_or (x ∷ xs) (suc i) d = get_or xs i d

  abbrev pub get_elem? : List A → ℕ → Option A
  get_elem? [] i = none
  get_elem? (x ∷ xs) zero = some x
  get_elem? (x ∷ xs) (suc i) = get_elem? xs i

  -- A write out of bounds changes nothing.
  abbrev pub set : List A → ℕ → A → List A
  set [] i v = []
  set (x ∷ xs) zero v = v ∷ xs
  set (x ∷ xs) (suc i) v = x ∷ set xs i v

  -- The bytes `xs` written one after another from index `i` on.
  abbrev pub splice : List A → ℕ → List A → List A
  splice buf i [] = buf
  splice buf i (x ∷ xs) = splice (set buf i x) (i + 1) xs

  abbrev pub replicate : ℕ → A → List A
  replicate zero a = []
  replicate (suc n) a = a ∷ replicate n a

  -- The last of the elements `x`, `xs`.
  abbrev pub last_of : A → List A → A
  last_of x [] = x
  last_of x (y ∷ ys) = last_of y ys

  pub last_of-append : (x y : A) (xs : List A) → last_of x (xs ++ y ∷ []) ≡ y
  last_of-append x y [] = refl
  last_of-append x y (z ∷ zs) = last_of-append z y zs

  pub length-append : (xs ys : List A) → length (xs ++ ys) ≡ length xs + length ys
  length-append [] ys = omega arith
  length-append (x ∷ xs) ys = omega (arith, length-append xs ys)

  pub length-replicate : (n : ℕ) (a : A) → length (replicate n a) ≡ n
  length-replicate zero a = refl
  length-replicate (suc n) a = ap suc (length-replicate n a)

  pub length-set : (xs : List A) (i : ℕ) (v : A) → length (set xs i v) ≡ length xs
  length-set [] i v = refl
  length-set (x ∷ xs) zero v = refl
  length-set (x ∷ xs) (suc i) v = ap suc (length-set xs i v)

  pub length-splice : (buf : List A) (i : ℕ) (xs : List A) → length (splice buf i xs) ≡ length buf
  length-splice buf i [] = refl
  length-splice buf i (x ∷ xs) = length-splice (set buf i x) (i + 1) xs ∙ length-set buf i x

  pub get_or-set_self :
      (xs : List A) (i : ℕ) (v d : A) → i < length xs → get_or (set xs i v) i d ≡ v
  get_or-set_self [] i v d h = absurd (omega arith)
  get_or-set_self (x ∷ xs) zero v d h = refl
  get_or-set_self (x ∷ xs) (suc i) v d h = get_or-set_self xs i v d (omega arith)

  pub get_or-set_ne :
      (xs : List A) (i j : ℕ) (v d : A) → i ≢ j → get_or (set xs i v) j d ≡ get_or xs j d
  get_or-set_ne [] i j v d h = refl
  get_or-set_ne (x ∷ xs) zero zero v d h = absurd (h refl)
  get_or-set_ne (x ∷ xs) zero (suc j) v d h = refl
  get_or-set_ne (x ∷ xs) (suc i) zero v d h = refl
  get_or-set_ne (x ∷ xs) (suc i) (suc j) v d h = get_or-set_ne xs i j v d (λ e. h (ap suc e))

  pub get_or-append_left :
      (xs ys : List A) (i : ℕ) (d : A) → i < length xs → get_or (xs ++ ys) i d ≡ get_or xs i d
  get_or-append_left [] ys i d h = absurd (omega arith)
  get_or-append_left (x ∷ xs) ys zero d h = refl
  get_or-append_left (x ∷ xs) ys (suc i) d h = get_or-append_left xs ys i d (omega arith)

  pub get_or-append_right :
      (xs ys : List A) (i : ℕ) (d : A) → get_or (xs ++ ys) (length xs + i) d ≡ get_or ys i d
  get_or-append_right [] ys i d = ap (λ k. get_or ys k d) (omega arith)
  get_or-append_right (x ∷ xs) ys i d =
      ap (λ k. get_or (x ∷ (xs ++ ys)) k d) step ∙ get_or-append_right xs ys i d
    where
      step : length (x ∷ xs) + i ≡ suc (length xs + i)
      step = omega arith

  -- Below and above the written part the list is as it was; inside it holds what was written.
  pub get_or-splice_below :
      (buf : List A) (i : ℕ) (xs : List A) (j : ℕ) (d : A)
      → j < i
      → get_or (splice buf i xs) j d ≡ get_or buf j d
  get_or-splice_below buf i [] j d h = refl
  get_or-splice_below buf i (x ∷ xs) j d h =
      get_or-splice_below (set buf i x) (i + 1) xs j d (omega arith)
      ∙ get_or-set_ne buf i j x d (omega arith)

  pub get_or-splice_above :
      (buf : List A) (i : ℕ) (xs : List A) (j : ℕ) (d : A)
      → i + length xs ≤ j
      → get_or (splice buf i xs) j d ≡ get_or buf j d
  get_or-splice_above buf i [] j d h = refl
  get_or-splice_above buf i (x ∷ xs) j d h =
      get_or-splice_above (set buf i x) (i + 1) xs j d (omega arith)
      ∙ get_or-set_ne buf i j x d (omega arith)

  pub get_or-splice_inside :
      (buf : List A) (i : ℕ) (xs : List A) (k : ℕ) (d : A)
      → i + length xs ≤ length buf
      → k < length xs
      → get_or (splice buf i xs) (i + k) d ≡ get_or xs k d
  get_or-splice_inside buf i [] k d fits h = absurd (omega arith)
  get_or-splice_inside buf i (x ∷ xs) zero d fits h =
      ap (λ n. get_or (splice (set buf i x) (i + 1) xs) n d) (omega arith)
      ∙ get_or-splice_below (set buf i x) (i + 1) xs i d (omega arith)
      ∙ get_or-set_self buf i x d (omega arith)
  get_or-splice_inside buf i (x ∷ xs) (suc k) d fits h =
      ap (λ n. get_or (splice (set buf i x) (i + 1) xs) n d) (omega arith)
      ∙ get_or-splice_inside (set buf i x) (i + 1) xs k d (omega (arith, length-set buf i x))
          (omega arith)

pub length-map {ℓ κ} :
    {A : Type ℓ} {B : Type κ} (f : A → B) (xs : List A) → length (map f xs) ≡ length xs
length-map f [] = refl
length-map f (x ∷ xs) = ap suc (length-map f xs)

pub map-append {ℓ κ} :
    {A : Type ℓ} {B : Type κ} (f : A → B) (xs ys : List A) → map f (xs ++ ys) ≡ map f xs ++ map f ys
map-append f [] ys = refl
map-append f (x ∷ xs) ys = ap (λ l. f x ∷ l) (map-append f xs ys)
