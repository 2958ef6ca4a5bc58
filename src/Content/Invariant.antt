-- ===== src/Content/Invariant.antt =====
-- The grid and the map of users agree.
use chatting_server_single.Common.{
  ℕ, ◌≤◌, ◌≡◌, true, Option, some, pos, List, contains, lookup, assign, none, refl, ap, sym, ◌∙◌,
  arith,
}
use chatting_server_single.Content.{UserData, Content, Report, placed, user_at}

-- Where a user is recorded to be.
unfoldable pub At : UserData → ℕ → ℕ → Type 0
At u x y = (u.sector_x ≡ pos x) × (u.sector_y ≡ pos y)

-- No pointer is null, a user with a sector stands in it, and whoever stands in a sector is a user
-- recorded there.
pub record IsValid (c : Content) : Type 0 where
  pub present :
      (id : ℕ) (p : Option UserData)
      → lookup id c.user_map ≡ some p
      → (u : UserData) × (p ≡ some u) × (u.session_id ≡ id)
  pub recorded :
      (id : ℕ) (u : UserData)
      → lookup id c.user_map ≡ some (some u)
      → placed u ≡ true
      → (x : ℕ) × (y : ℕ) × (x ≤ 50)
        × (y ≤ 50)
        × At u x y
        × (contains id (c.sector_grid x y) ≡ true)
  pub standing :
      (x y id : ℕ)
      → contains id (c.sector_grid x y) ≡ true
      → (u : UserData) × (lookup id c.user_map ≡ some (some u)) × At u x y

pub placed-At : (u : UserData) (x y : ℕ) → At u x y → placed u ≡ true
unfolding At
placed-At u x y (e, f) = rw e (ground arith)

pos_injective : (a b : ℕ) → pos a ≡ pos b → a ≡ b
pos_injective a b h = ground arith

-- A user recorded in a sector stands there.
pub stands :
    {c : Content}
    → IsValid c
    → (id : ℕ) (u : UserData) (x y : ℕ) → lookup id c.user_map ≡ some (some u)
    → At u x y
    → (contains id (c.sector_grid x y) ≡ true) × (x ≤ 50) × (y ≤ 50)
unfolding At
stands {c} v id u x y e at =
    let (a, b, p, q, at', held) = v.recorded id u e (placed-At u x y at) in
    let same_x : a ≡ x = pos_injective a x (sym at'.0 ∙ at.0) in
    let same_y : b ≡ y = pos_injective b y (sym at'.1 ∙ at.1) in
    (rw (sym same_x, sym same_y) held, omega arith, omega arith)

pub user_at_known :
    (id : ℕ) (c : Content) (p : Option UserData)
    → lookup id c.user_map ≡ some p
    → user_at id c ≡ (c, p)
unfolding user_at
user_at_known id c p e = rw (e, user_at) refl

pub same_user :
    (u w : UserData) → ◌≡◌ {A = Option (Option UserData)} (some (some u)) (some (some w)) → u ≡ w
same_user u w h = ground arith

pub same_place : (u w : UserData) (a b x y : ℕ) → u ≡ w → At u x y → At w a b → (a ≡ x) × (b ≡ y)
unfolding At
same_place u w a b x y e at at' = (
  pos_injective a x (sym at'.0 ∙ ap UserData.sector_x (sym e) ∙ at.0),
  pos_injective b y (sym at'.1 ∙ ap UserData.sector_y (sym e) ∙ at.1),
)

pub user_at_missing :
    (id : ℕ) (c : Content)
    → lookup id c.user_map ≡ none
    → user_at id c ≡ (record c { user_map = assign id none c.user_map }, none)
unfolding user_at
user_at_missing id c e = rw (e, user_at) refl

-- The number of jobs and the reports do not matter.
pub counted-IsValid :
    {c : Content}
    → IsValid c
    → (n : ℕ) (r : List Report) → IsValid (record c { job_tps = n; reported = r })
counted-IsValid v n r = record { present = v.present; recorded = v.recorded; standing = v.standing }
