-- ===== src/Content/Neighbors.antt =====
-- Which sectors and which users count as neighbours.
use mathlib.Core.Bool.{false≢true}
use chatting_server_single.Common.{
  ℕ, suc, ◌+◌, ◌-◌, ◌≤◌, ◌≡◌, ◌↔◌, ◌⊎◌, inl, inr, refl, ◌∙◌, sym, ap, arith, Bool, true, false,
  ◌&&◌, List, [], ◌∷◌, ◌++◌, some, if◌then◌else◌, ℤ, pos, negsuc, ◌+ℤ◌, leb_ℤ, contains,
  contains-append, lookup,
}
use chatting_server_single.Content.{UserData, Grid, Content, in_grid, offsets}
use chatting_server_single.Content.Jobs.{users_in, users_near, find_neighbor}
use chatting_server_single.Content.Invariant.{IsValid, At, stands, placed-At, user_at_known}

-- `a` is `d` away from `x`.
Away : ℤ → ℕ → ℕ → Type 0
Away (pos d) a x = a ≡ x + d
Away (negsuc d) a x = a + suc d ≡ x

-- Sector (a, b) is one of the offsets away from (x, y).
Reachable : ℕ → ℕ → ℕ → ℕ → List (ℤ × ℤ) → Type 0
unfolding Away
Reachable a b x y [] = ◌≡◌ {A = ℕ} 0 1
Reachable a b x y ((dx, dy) ∷ ds) = (Away dx a x × Away dy b y) ⊎ Reachable a b x y ds

-- Two sectors are next to each other or the same.
pub Near : ℕ → ℕ → ℕ → ℕ → Type 0
Near a b x y = (a ≤ x + 1) × (x ≤ a + 1) × (b ≤ y + 1) × (y ≤ b + 1)

Near→Reachable : (a b x y : ℕ) → Near a b x y → Reachable a b x y offsets
unfolding Near Reachable Away
Near→Reachable a b x y h = ground arith

Reachable→Near : (a b x y : ℕ) → Reachable a b x y offsets → Near a b x y
unfolding Near Reachable Away
Reachable→Near a b x y h = ground arith

-- A step that ends in the grid ends `d` away, and the other way round.
step_in :
    (x : ℕ) (d : ℤ)
    → leb_ℤ (pos 0) (pos x +ℤ d) ≡ true
    → leb_ℤ (pos x +ℤ d) (pos 50) ≡ true
    → (a : ℕ) × (a ≤ 50) × (pos x +ℤ d ≡ pos a) × Away d a x
unfolding Away
step_in x (pos d) h k = (x + d, ground arith, ground arith, refl)
step_in x (negsuc d) h k = (x - suc d, ground arith, ground arith, ground arith)

Away-step : (x a : ℕ) (d : ℤ) → Away d a x → pos x +ℤ d ≡ pos a
unfolding Away
Away-step x a (pos d) h = ground arith
Away-step x a (negsuc d) h = ground arith

-- A user stands in a sector that the offsets lead to.
Found : Grid → ℕ → ℕ → ℕ → List (ℤ × ℤ) → Type 0
unfolding Reachable
Found g j x y ds =
    (a : ℕ) × (b : ℕ) × (a ≤ 50) × (b ≤ 50) × Reachable a b x y ds × (contains j (g a b) ≡ true)

and_parts : (p q : Bool) → (p && q) ≡ true → (p ≡ true) × (q ≡ true)
and_parts p q h = ground arith

contains-if_append :
    (j : ℕ) (b : Bool) (xs ys : List ℕ)
    → (contains j (if b then xs ++ ys else ys) ≡ true)
      ↔ (((b ≡ true) × (contains j xs ≡ true)) ⊎ (contains j ys ≡ true))
contains-if_append j true xs ys = ground (arith, contains-append j xs ys)
contains-if_append j false xs ys = ground arith

users_in_at : (g : Grid) (a b : ℕ) (z w : ℤ) → z ≡ pos a → w ≡ pos b → users_in g (z, w) ≡ g a b
users_in_at g a b z w e f = rw (e, f)

users_near→Found :
    (g : Grid) (j x y : ℕ) (ds : List (ℤ × ℤ))
    → contains j (users_near g (pos x) (pos y) ds) ≡ true
    → Found g j x y ds
unfolding users_near Found Reachable
users_near→Found g j x y [] h = absurd (false≢true h)
users_near→Found g j x y ((dx, dy) ∷ ds) h =
    elim ((contains-if_append j (in_grid (pos x +ℤ dx, pos y +ℤ dy))
        (users_in g (pos x +ℤ dx, pos y +ℤ dy)) (users_near g (pos x) (pos y) ds)).0
      h) [
        | inl (inside, held) ↦
            let (h1, h2) = and_parts _ _ inside in
            let (l1, l2) = and_parts _ _ h1 in
            let (l3, l4) = and_parts _ _ h2 in
            let (a, p, e, u) = step_in x dx l1 l2 in
            let (b, q, f, v) = step_in y dy l3 l4 in
            (a, b, p, q, inl (u, v), sym (ap (contains j) (users_in_at g a b _ _ e f)) ∙ held)
        | inr rest ↦
            let (a, b, p, q, r, held) = users_near→Found g j x y ds rest in
            (a, b, p, q, inr r, held)
      ]

Found→users_near :
    (g : Grid) (j x y : ℕ) (ds : List (ℤ × ℤ))
    → Found g j x y ds
    → contains j (users_near g (pos x) (pos y) ds) ≡ true
unfolding users_near Found Reachable
Found→users_near g j x y [] (a, b, p, q, r, h) = absurd (omega arith)
Found→users_near g j x y ((dx, dy) ∷ ds) (a, b, p, q, inl (u, v), h) =
    (contains-if_append j (in_grid (pos x +ℤ dx, pos y +ℤ dy)) _ _).1
      (inl (inside, ap (contains j) (users_in_at g a b _ _ e f) ∙ h))
  where
    e : pos x +ℤ dx ≡ pos a
    e = Away-step x a dx u

    f : pos y +ℤ dy ≡ pos b
    f = Away-step y b dy v

    inside : in_grid (pos x +ℤ dx, pos y +ℤ dy) ≡ true
    inside = rw (e, f) (ground arith)
Found→users_near g j x y ((dx, dy) ∷ ds) (a, b, p, q, inr r, h) =
    (contains-if_append j (in_grid (pos x +ℤ dx, pos y +ℤ dy)) _ _).1
      (inr (Found→users_near g j x y ds (a, b, p, q, r, h)))

find_neighbor-At :
    (c : Content) (id x y : ℕ) (u : UserData)
    → lookup id c.user_map ≡ some (some u)
    → At u x y
    → find_neighbor id c ≡ some (users_near c.sector_grid (pos x) (pos y) offsets)
unfolding find_neighbor At
find_neighbor-At c id x y u e at =
    rw (user_at_known id c (some u) e) (ap some (rw (placed-At u x y at, at.0, at.1) refl))

-- In a valid content, the neighbours that `findNeighbor` finds for a user who stands in sector
-- (x, y) are exactly the users recorded in that sector or in one next to it.
pub find_neighbor_lem :
    (c : Content) (id x y : ℕ) (u : UserData)
    → IsValid c
    → lookup id c.user_map ≡ some (some u)
    → At u x y
    → (ids : List ℕ) × (find_neighbor id c ≡ some ids)
      × ((j : ℕ)
          → (contains j ids ≡ true) ↔ (
              (w : UserData) × (a : ℕ) × (b : ℕ) × (lookup j c.user_map ≡ some (some w))
              × At w a b
              × Near a b x y))
unfolding Found At
find_neighbor_lem c id x y u v e at = (
  users_near c.sector_grid (pos x) (pos y) offsets,
  find_neighbor-At c id x y u e at,
  λ j. (
    λ h.
        let (a, b, p, q, r, held) = users_near→Found c.sector_grid j x y offsets h in
        let (w, known, there) = v.standing a b j held in
        (w, a, b, known, there, Reachable→Near a b x y r),
    λ (w, a, b, known, there, near).
        let (held, p, q) = stands v j w a b known there in
        Found→users_near c.sector_grid j x y offsets
          (a, b, p, q, Near→Reachable a b x y near, held),
  ),
)
