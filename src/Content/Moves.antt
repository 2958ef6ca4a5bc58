-- ===== src/Content/Moves.antt =====
-- How a user enters the map, leaves its sector and enters another one.
use mathlib.Core.Bool.{false≢true}
use chatting_server_single.Common.{
  ℕ, ◌≤◌, ◌≡◌, ◌≢◌, ◌↔◌, ◌⊎◌, inl, inr, refl, ◌∙◌, sym, ap, arith, true, ◌&&◌, List, some,
  if◌then◌else◌, pos, eq_ℤ, ltb, contains, insert, erase, lookup, Bool-cases, ==_iff, ◌==◌,
  contains-insert_self, contains-insert_ne, contains-erase_self, contains-erase_ne,
}
use chatting_server_single.Content.{UserData, Grid, Content, placed, at_sector, leave_sector}
use chatting_server_single.Content.Invariant.{IsValid, At, placed-At, same_user, same_place}

pub same_or_not : (a b : ℕ) → (a ≡ b) ⊎ (a ≢ b)
same_or_not a b = elim (Bool-cases (a == b)) [
  | inl e ↦ inl ((==_iff a b).0 e)
  | inr e ↦ inr (λ p. false≢true (sym e ∙ (==_iff a b).1 p))
]

-- One sector changed.
changed : ℕ → ℕ → (List ℕ → List ℕ) → Grid → Grid
changed x y f g i j = if eq_ℤ (pos i) (pos x) && eq_ℤ (pos j) (pos y) then f (g i j) else g i j

at_sector-changed :
    (x y : ℕ) (f : List ℕ → List ℕ) (g : Grid)
    → x ≤ 50
    → y ≤ 50
    → at_sector (pos x) (pos y) f g ≡ some (changed x y f g)
unfolding at_sector changed
at_sector-changed x y f g p q = rw inside refl
  where
    inside : (ltb x 51 && ltb y 51) ≡ true
    inside = ground arith

changed_here : (x y : ℕ) (f : List ℕ → List ℕ) (g : Grid) → changed x y f g x y ≡ f (g x y)
unfolding changed
changed_here x y f g = ground arith

changed_elsewhere :
    (x y a b : ℕ) (f : List ℕ → List ℕ) (g : Grid) → (a ≢ x) ⊎ (b ≢ y) → changed x y f g a b ≡ g a b
unfolding changed
changed_elsewhere x y a b f g h = ground arith

-- Everyone else stands where they stood, and `id` stands in no sector, or in (x, y).
unfoldable pub Left : ℕ → Grid → Grid → Type 0
Left id g g' = (j a b : ℕ) → (contains j (g' a b) ≡ true) ↔ ((contains j (g a b) ≡ true) × (j ≢ id))

unfoldable pub Entered : ℕ → ℕ → ℕ → Grid → Grid → Type 0
Entered id x y g g' =
    (j a b : ℕ)
    → (contains j (g' a b) ≡ true) ↔ ((contains j (g a b) ≡ true) ⊎ ((j ≡ id) × (a ≡ x) × (b ≡ y)))

changed-insert : (id x y : ℕ) (g : Grid) → Entered id x y g (changed x y (insert id) g)
unfolding Entered changed
changed-insert id x y g j a b =
    ground (arith, contains-insert_self id (g a b), contains-insert_ne id j (g a b))

changed-erase :
    (id x y : ℕ) (g : Grid)
    → ((a b : ℕ) → contains id (g a b) ≡ true → (a ≡ x) × (b ≡ y))
    → Left id g (changed x y (erase id) g)
unfolding Left changed
changed-erase id x y g only j a b =
    ground (arith, contains-erase_self id (g a b), contains-erase_ne id j (g a b), only a b)

-- A user of a valid content is taken out of its sector, and stands in none.
pub leave_lem :
    {c : Content}
    → IsValid c
    → (id : ℕ) (u : UserData) → lookup id c.user_map ≡ some (some u)
    → (g : Grid) × (leave_sector id u c.sector_grid ≡ some g) × Left id c.sector_grid g
unfolding leave_sector At Left
leave_lem {c} v id u e = elim (Bool-cases (placed u)) [
  | inl p ↦
      let (x, y, low, high, at, held) = v.recorded id u e p in
      (
        changed x y (erase id) c.sector_grid,
        rw (p, at.0, at.1) (at_sector-changed x y (erase id) c.sector_grid low high),
        changed-erase id x y c.sector_grid (only x y at),
      )
  | inr p ↦ (
    c.sector_grid,
    rw p refl,
    λ j a b. (
      λ h. (
        h,
        λ same.
            false≢true
              (sym p ∙ nowhere a b (sym (ap (λ k. contains k (c.sector_grid a b)) same) ∙ h)),
      ),
      λ h. h.0,
    ),
  )
]
  where
    nowhere : (a b : ℕ) → contains id (c.sector_grid a b) ≡ true → placed u ≡ true
    nowhere a b h =
        let (w, f, at) = v.standing a b id h in
        ap placed (same_user u w (sym e ∙ f)) ∙ placed-At w a b at

    only :
        (x y : ℕ)
        → At u x y
        → (a b : ℕ) → contains id (c.sector_grid a b) ≡ true
        → (a ≡ x) × (b ≡ y)
    only x y at a b h =
        let (w, f, at') = v.standing a b id h in
        same_place u w a b x y (same_user u w (sym e ∙ f)) at at'

pub enter_lem :
    (id x y : ℕ) (g : Grid)
    → x ≤ 50
    → y ≤ 50
    → (g' : Grid) × (at_sector (pos x) (pos y) (insert id) g ≡ some g') × Entered id x y g g'
enter_lem id x y g p q =
    (changed x y (insert id) g, at_sector-changed x y (insert id) g p q, changed-insert id x y g)
