-- ===== src/Common/Maps.antt =====
-- Sets of numbers and maps from numbers, as lists: hash sets and hash maps.
use Prim.Native.Nat.{ℕ}
use mathlib.Core.Path.{◌≡◌, refl}
use mathlib.Core.Logic.{◌≢◌, ◌↔◌, ◌⊎◌, inl, inr}
use mathlib.Core.Bool.{Bool, true, false, false≢true}
use mathlib.Core.List.{List, [], ◌∷◌, ◌++◌}
use mathlib.Core.Option.{Option, none, some}
use native.Mathlib.Omega.{arith}
use chatting_server_single.Common.Tests.{◌==◌, if◌then◌else◌}

abbrev pub contains : ℕ → List ℕ → Bool
contains k [] = false
contains k (x ∷ xs) = if k == x then true else contains k xs

abbrev pub insert : ℕ → List ℕ → List ℕ
insert k xs = if contains k xs then xs else k ∷ xs

abbrev pub erase : ℕ → List ℕ → List ℕ
erase k [] = []
erase k (x ∷ xs) = let rest = erase k xs in if k == x then rest else x ∷ rest

pub contains-insert_self : (k : ℕ) (xs : List ℕ) → contains k (insert k xs) ≡ true
contains-insert_self k xs = ground arith

pub contains-insert_ne : (k j : ℕ) (xs : List ℕ) → j ≢ k → contains j (insert k xs) ≡ contains j xs
contains-insert_ne k j xs h = ground arith

pub contains-erase_self : (k : ℕ) (xs : List ℕ) → contains k (erase k xs) ≡ false
contains-erase_self k [] = refl
contains-erase_self k (x ∷ xs) = ground (arith, contains-erase_self k xs)

pub contains-erase_ne : (k j : ℕ) (xs : List ℕ) → j ≢ k → contains j (erase k xs) ≡ contains j xs
contains-erase_ne k j [] h = refl
contains-erase_ne k j (x ∷ xs) h = ground (arith, contains-erase_ne k j xs h)

module _ {ℓ} {A : Type ℓ} where
  abbrev pub lookup : ℕ → List (ℕ × A) → Option A
  lookup k [] = none
  lookup k ((x, a) ∷ m) = if k == x then some a else lookup k m

  abbrev pub assign : ℕ → A → List (ℕ × A) → List (ℕ × A)
  assign k v [] = (k, v) ∷ []
  assign k v ((x, a) ∷ m) = let rest = assign k v m in if k == x then (x, v) ∷ m else (x, a) ∷ rest

  abbrev pub erase_key : ℕ → List (ℕ × A) → List (ℕ × A)
  erase_key k [] = []
  erase_key k ((x, a) ∷ m) = let rest = erase_key k m in if k == x then rest else (x, a) ∷ rest

  pub lookup-assign_self : (k : ℕ) (v : A) (m : List (ℕ × A)) → lookup k (assign k v m) ≡ some v
  lookup-assign_self k v [] = ground arith
  lookup-assign_self k v ((x, a) ∷ m) = ground (arith, lookup-assign_self k v m)

  pub lookup-assign_ne :
      (k j : ℕ) (v : A) (m : List (ℕ × A)) → j ≢ k → lookup j (assign k v m) ≡ lookup j m
  lookup-assign_ne k j v [] h = ground arith
  lookup-assign_ne k j v ((x, a) ∷ m) h = ground (arith, lookup-assign_ne k j v m h)

  pub lookup-erase_key_self : (k : ℕ) (m : List (ℕ × A)) → lookup k (erase_key k m) ≡ none
  lookup-erase_key_self k [] = refl
  lookup-erase_key_self k ((x, a) ∷ m) = ground (arith, lookup-erase_key_self k m)

  pub lookup-erase_key_ne :
      (k j : ℕ) (m : List (ℕ × A)) → j ≢ k → lookup j (erase_key k m) ≡ lookup j m
  lookup-erase_key_ne k j [] h = refl
  lookup-erase_key_ne k j ((x, a) ∷ m) h = ground (arith, lookup-erase_key_ne k j m h)

pub contains-append :
    (k : ℕ) (xs ys : List ℕ)
    → (contains k (xs ++ ys) ≡ true) ↔ ((contains k xs ≡ true) ⊎ (contains k ys ≡ true))
contains-append k [] ys = (inr, λ h. elim h [ inl e ↦ absurd (false≢true e) | inr e ↦ e ])
contains-append k (x ∷ xs) ys = ground (arith, contains-append k xs ys)
