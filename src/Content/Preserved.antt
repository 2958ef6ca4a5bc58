-- ===== src/Content/Preserved.antt =====
-- The jobs keep the grid and the map in agreement, and do what they are for.
use mathlib.Core.Bool.{false≢true}
use mathlib.Core.Option.{some-ne-none}
use chatting_server_single.Common.{
  ℕ, ◌-◌, ◌≤◌, ◌^◌, ◌%◌, ◌≡◌, ◌≢◌, ◌↔◌, ◌⊎◌, inl, inr, refl, ◌∙◌, sym, ap, ap₂, arith, true, false,
  [], ◌∷◌, ◌++◌, Option, none, some, pos, negsuc, contains, lookup, assign, lookup-assign_self,
  lookup-assign_ne,
}
use chatting_server_single.Serializer.Memory.{Serializer}
use chatting_server_single.Serializer.Contents.{contents}
use chatting_server_single.Serializer.Scalars.{field_bytes}
use chatting_server_single.Content.{
  UserData, Grid, Content, Environment, sent, placed, create_new_user, move_sector,
}
use chatting_server_single.Content.Invariant.{IsValid, At, placed-At, user_at_known, same_user}
use chatting_server_single.Content.Moves.{Left, Entered, leave_lem, enter_lem, same_or_not}
use chatting_server_single.Content.Packets.{Ready, packet_lem}

some_injective :
    (p q : Option UserData) → ◌≡◌ {A = Option (Option UserData)} (some p) (some q) → p ≡ q
some_injective p q h = ground arith

-- One user put in the place where its record says it is, or in none, and the others left alone.
module _ {c : Content} (v : IsValid c) (id : ℕ) (u : UserData) (c' : Content)
    (own : u.session_id ≡ id) (same : lookup id c'.user_map ≡ some (some u))
    (others : (j : ℕ) → j ≢ id → lookup j c'.user_map ≡ lookup j c.user_map)
    (stood : (j a b : ℕ)
      → (contains j (c'.sector_grid a b) ≡ true)
        ↔ (((contains j (c.sector_grid a b) ≡ true) × (j ≢ id)) ⊎ ((j ≡ id) × At u a b)))
    (low : placed u ≡ true → (x : ℕ) × (y : ℕ) × (x ≤ 50) × (y ≤ 50) × At u x y) where
  put_present :
      (j : ℕ) (p : Option UserData)
      → lookup j c'.user_map ≡ some p
      → (w : UserData) × (p ≡ some w) × (w.session_id ≡ j)
  put_present j p e = elim (same_or_not j id) [
    | inl h ↦ (
      u,
      some_injective p (some u) (sym e ∙ ap (λ k. lookup k c'.user_map) h ∙ same),
      own ∙ sym h,
    )
    | inr h ↦ v.present j p (sym (others j h) ∙ e)
  ]

  put_recorded :
      (j : ℕ) (w : UserData)
      → lookup j c'.user_map ≡ some (some w)
      → placed w ≡ true
      → (x : ℕ) × (y : ℕ) × (x ≤ 50)
        × (y ≤ 50)
        × At w x y
        × (contains j (c'.sector_grid x y) ≡ true)
  put_recorded j w e p = elim (same_or_not j id) [
    | inl h ↦
        let is_u : w ≡ u = same_user w u (sym e ∙ ap (λ k. lookup k c'.user_map) h ∙ same) in
        let (x, y, q, r, at) = low (ap placed (sym is_u) ∙ p) in
        (x, y, q, r, moved_at x y w is_u at, (stood j x y).1 (inr (h, at)))
    | inr h ↦
        let (x, y, q, r, at, held) = v.recorded j w (sym (others j h) ∙ e) p in
        (x, y, q, r, at, (stood j x y).1 (inl (held, h)))
  ]
    where
      moved_at : (x y : ℕ) (w : UserData) → w ≡ u → At u x y → At w x y
      moved_at x y w is_u at = rw is_u at

  put_standing :
      (x y j : ℕ)
      → contains j (c'.sector_grid x y) ≡ true
      → (w : UserData) × (lookup j c'.user_map ≡ some (some w)) × At w x y
  put_standing x y j h = elim ((stood j x y).0 h) [
    | inl (held, ne) ↦ let (w, e, at) = v.standing x y j held in (w, others j ne ∙ e, at)
    | inr (e, at) ↦ (u, ap (λ k. lookup k c'.user_map) e ∙ same, at)
  ]

  pub put-IsValid : IsValid c'
  put-IsValid = record { present = put_present; recorded = put_recorded; standing = put_standing }

pub placed-false : (u : UserData) → u.sector_x ≡ negsuc 0 → placed u ≡ false
placed-false u e = rw e refl

-- A user who connects under a fresh number keeps a valid content valid, is known then, and stands
-- in no sector.
pub create_new_user_lem :
    (env : Environment) (id : ℕ) (c : Content)
    → IsValid c
    → lookup id c.user_map ≡ none
    → IsValid (create_new_user env id c)
      × ((u : UserData) × (lookup id (create_new_user env id c).user_map ≡ some (some u))
          × (u.session_id ≡ id)
          × (placed u ≡ false))
unfolding create_new_user
create_new_user_lem env id c v fresh = (
  put-IsValid v id new_user (create_new_user env id c) refl known
      (λ j ne. lookup-assign_ne id j (some new_user) c.user_map ne) stood
      (λ p. absurd (false≢true (sym (placed-false new_user refl) ∙ p))),
  (new_user, known, refl, placed-false new_user refl),
)
  where
    new_user : UserData
    new_user = record env.blank {
      session_id = id;
      sector_x = negsuc 0;
      last_recv_tick = env.tick;
      account_no = 2 ^ 64 - 1;
    }

    known : lookup id (create_new_user env id c).user_map ≡ some (some new_user)
    known = lookup-assign_self id (some new_user) c.user_map

    stranger : (j a b : ℕ) → contains j (c.sector_grid a b) ≡ true → j ≢ id
    stranger j a b h e =
        let (w, f, _) = v.standing a b j h in
        some-ne-none _ (sym f ∙ ap (λ k. lookup k c.user_map) e ∙ fresh)

    stood :
        (j a b : ℕ)
        → (contains j (c.sector_grid a b) ≡ true)
          ↔ (((contains j (c.sector_grid a b) ≡ true) × (j ≢ id)) ⊎ ((j ≡ id) × At new_user a b))
    stood j a b = (
      λ h. inl (h, stranger j a b h),
      λ h. elim h [
        | inl p ↦ p.0
        | inr (_, at) ↦
            absurd (false≢true (sym (placed-false new_user refl) ∙ placed-At new_user a b at))
      ],
    )

pub own_number :
    {c : Content}
    → IsValid c
    → (id : ℕ) (u : UserData) → lookup id c.user_map ≡ some (some u)
    → u.session_id ≡ id
own_number v id u e =
    let (w, same, own) = v.present id (some u) e in
    ap UserData.session_id (same_user u w (ap some same)) ∙ own

-- A user of a valid content who moves to a sector of the grid leaves the old one, stands in the
-- new one and is recorded there, and no other user is changed; the content stays valid, and the
-- session is sent the account and the sector, if the pool has room for the fourteen bytes.
pub move_sector_lem :
    (env : Environment) (id x y : ℕ) (u : UserData) (c : Content)
    → IsValid c
    → lookup id c.user_map ≡ some (some u)
    → x ≤ 50
    → y ≤ 50
    → Ready env 14
    → (c' : Content) × (p : Serializer) × (move_sector env id (pos x) (pos y) c ≡ some c')
      × IsValid c'
      × ((a b : ℕ) → (contains id (c'.sector_grid a b) ≡ true) ↔ ((a ≡ x) × (b ≡ y)))
      × (lookup id c'.user_map ≡ some (some (record u { sector_x = pos x; sector_y = pos y })))
      × ((j : ℕ) → j ≢ id → lookup j c'.user_map ≡ lookup j c.user_map)
      × (c'.reported ≡ c.reported ++ sent (u.session_id ∷ []) p ∷ [])
      × (contents p ≡ field_bytes ((2, 4) ∷ (8, u.account_no) ∷ (2, x) ∷ (2, y) ∷ []))
unfolding move_sector At Left Entered
move_sector_lem env id x y u c v e low high ready =
    let (g, left_e, left) = leave_lem v id u e in
    let (g', entered_e, entered) = enter_lem id x y g low high in
    let (p, packet_e, held) =
      packet_lem env 14 ready ((2, 4) ∷ (8, u.account_no) ∷ (2, x % 2 ^ 16) ∷ (2, y % 2 ^ 16) ∷ [])
        (omega arith) in
    let c' = record c {
      user_map = assign id (some mover) c.user_map;
      sector_grid = g';
      reported = c.reported ++ sent (u.session_id ∷ []) p ∷ [];
    } in
    (
      c',
      p,
      rw (user_at_known id c (some u) e) (rw (left_e, entered_e, packet_e) refl),
      put-IsValid v id mover c' (own_number v id u e)
          (lookup-assign_self id (some mover) c.user_map)
          (λ j ne. lookup-assign_ne id j (some mover) c.user_map ne) (stood g g' left entered)
          (λ _. (x, y, low, high, (refl, refl))),
      λ a b. only a b g g' left entered,
      lookup-assign_self id (some mover) c.user_map,
      λ j ne. lookup-assign_ne id j (some mover) c.user_map ne,
      refl,
      held
          ∙ ap₂ (λ a b. field_bytes ((2, 4) ∷ (8, u.account_no) ∷ (2, a) ∷ (2, b) ∷ []))
              (omega arith) (omega arith),
    )
  where
    mover : UserData
    mover = record u { sector_x = pos x; sector_y = pos y }

    stood :
        (g g' : Grid)
        → Left id c.sector_grid g
        → Entered id x y g g'
        → (j a b : ℕ)
        → (contains j (g' a b) ≡ true)
          ↔ (((contains j (c.sector_grid a b) ≡ true) × (j ≢ id)) ⊎ ((j ≡ id) × At mover a b))
    stood g g' left entered j a b = ground (arith, left j a b, entered j a b)

    only :
        (a b : ℕ) (g g' : Grid)
        → Left id c.sector_grid g
        → Entered id x y g g'
        → (contains id (g' a b) ≡ true) ↔ ((a ≡ x) × (b ≡ y))
    only a b g g' left entered = ground (arith, left id a b, entered id a b)
