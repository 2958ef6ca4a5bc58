-- ===== src/Content/Sessions.antt =====
-- The end of a user, its login, and jobs for users that are gone.
use mathlib.Core.Option.{some-ne-none}
use chatting_server_single.Common.{
  ℕ, ◌≡◌, ◌≢◌, ◌↔◌, ◌⊎◌, inl, inr, refl, ◌∙◌, sym, ap, arith, true, List, [], ◌∷◌, ◌++◌, Option,
  none, some, ℤ, contains, lookup, assign, erase_key, lookup-assign_self, lookup-assign_ne,
  lookup-erase_key_self, lookup-erase_key_ne,
}
use chatting_server_single.Serializer.Memory.{Serializer}
use chatting_server_single.Serializer.Contents.{contents}
use chatting_server_single.Serializer.Scalars.{field_bytes}
use chatting_server_single.Content.{
  UserData, Grid, Content, Environment, sent, delete_user, user_at, login_process, move_sector,
}
use chatting_server_single.Content.Jobs.{send_message}
use chatting_server_single.Content.Invariant.{
  IsValid, At, stands, user_at_known, user_at_missing, same_user,
}
use chatting_server_single.Content.Moves.{Left, leave_lem, same_or_not}
use chatting_server_single.Content.Packets.{Ready, packet_lem}
use chatting_server_single.Content.Preserved.{put-IsValid, own_number}

-- If `target->second` can still be read after `target` was erased from the map, a user of a valid
-- content is deleted, and the pool is given what is read there: the content stays valid, the user is in
-- no map and in no sector any more, and all other users are unchanged and where they were.
pub delete_user_lem :
    (env : Environment) (id : ℕ) (u w : UserData) (c : Content)
    → IsValid c
    → lookup id c.user_map ≡ some (some u)
    → env.erased u ≡ some w
    → (c' : Content) × (delete_user env id c ≡ some c')
      × IsValid c'
      × (lookup id c'.user_map ≡ none)
      × (lookup id c'.mapping_table ≡ none)
      × ((j : ℕ) → j ≢ id → lookup j c'.user_map ≡ lookup j c.user_map)
      × ((j a b : ℕ)
          → (contains j (c'.sector_grid a b) ≡ true)
            ↔ ((contains j (c.sector_grid a b) ≡ true) × (j ≢ id)))
      × (c'.given_back ≡ c.given_back ++ w ∷ [])
unfolding delete_user Left
delete_user_lem env id u w c v e read =
    let (g, left_e, left) = leave_lem v id u e in
    (
      gone g,
      rw (e, delete_user) (rw (left_e, read) refl),
      record {
        present = λ j p f. v.present j p (kept j p f);
        recorded = λ j w f h.
            let (x, y, q, r, at, held) = v.recorded j w (kept j (some w) f) h in
            (x, y, q, r, at, (left j x y).1 (held, alive j (some w) f));
        standing = λ x y j h.
            let (held, ne) = (left j x y).0 h in
            let (w', f, at) = v.standing x y j held in
            (w', lookup-erase_key_ne id j c.user_map ne ∙ f, at);
      },
      lookup-erase_key_self id c.user_map,
      rw (own_number v id u e) (lookup-erase_key_self id c.mapping_table),
      λ j ne. lookup-erase_key_ne id j c.user_map ne,
      left,
      refl,
    )
  where
    gone : Grid → Content
    gone g = record c {
      sector_grid = g;
      mapping_table = erase_key u.session_id c.mapping_table;
      user_map = erase_key id c.user_map;
      given_back = c.given_back ++ w ∷ [];
    }

    alive : (j : ℕ) (p : Option UserData) → lookup j (erase_key id c.user_map) ≡ some p → j ≢ id
    alive j p f same = some-ne-none _ (
        sym f
        ∙ ap (λ k. lookup k (erase_key id c.user_map)) same
        ∙ lookup-erase_key_self id c.user_map)

    kept :
        (j : ℕ) (p : Option UserData)
        → lookup j (erase_key id c.user_map) ≡ some p
        → lookup j c.user_map ≡ some p
    kept j p f = sym (lookup-erase_key_ne id j c.user_map (alive j p f)) ∙ f

-- A login of a user of a valid content whose strings `wcscpy_s` accepts records them and the
-- account, changes no other user, moves nobody, keeps the content valid, and answers with the
-- account, if the pool has room for the eleven bytes.
pub login_process_lem :
    (env : Environment) (id account_no : ℕ) (name nickname name' nickname' : List ℕ) (u : UserData)
    (c : Content)
    → IsValid c
    → lookup id c.user_map ≡ some (some u)
    → env.copy_string u.name name ≡ some name'
    → env.copy_string u.nickname nickname ≡ some nickname'
    → Ready env 11
    → (c' : Content) × (p : Serializer) × (login_process env id account_no name nickname c
        ≡ some c')
      × IsValid c'
      × (lookup id c'.user_map
          ≡ some (some (record u { account_no = account_no; name = name'; nickname = nickname' })))
      × ((j : ℕ) → j ≢ id → lookup j c'.user_map ≡ lookup j c.user_map)
      × ((a b : ℕ) → c'.sector_grid a b ≡ c.sector_grid a b)
      × (c'.reported ≡ c.reported ++ sent (id ∷ []) p ∷ [])
      × (contents p ≡ field_bytes ((2, 2) ∷ (1, 1) ∷ (8, account_no) ∷ []))
unfolding login_process At
login_process_lem env id account_no name nickname name' nickname' u c v e n1 n2 ready =
    let (p, packet_e, held) =
      packet_lem env 11 ready ((2, 2) ∷ (1, 1) ∷ (8, account_no) ∷ []) (omega arith) in
    let c' = record c {
      user_map = assign id (some user) c.user_map;
      reported = c.reported ++ sent (u.session_id ∷ []) p ∷ [];
    } in
    (
      c',
      p,
      rw (user_at_known id c (some u) e) (rw (n1, n2, packet_e) refl),
      put-IsValid v id user c' (own_number v id u e) (lookup-assign_self id (some user) c.user_map)
          (λ j ne. lookup-assign_ne id j (some user) c.user_map ne) stood
          (λ h. let (x, y, q, r, at, _) = v.recorded id u e h in (x, y, q, r, at)),
      lookup-assign_self id (some user) c.user_map,
      λ j ne. lookup-assign_ne id j (some user) c.user_map ne,
      λ a b. refl,
      ap (λ k. c.reported ++ sent (k ∷ []) p ∷ []) (own_number v id u e),
      held,
    )
  where
    user : UserData
    user = record u { account_no = account_no; name = name'; nickname = nickname' }

    stood :
        (j a b : ℕ)
        → (contains j (c.sector_grid a b) ≡ true)
          ↔ (((contains j (c.sector_grid a b) ≡ true) × (j ≢ id)) ⊎ ((j ≡ id) × At user a b))
    stood j a b = (
      λ h. elim (same_or_not j id) [
        | inl same ↦
            let (w, f, at) = v.standing a b j h in
            let is_u : u ≡ w =
              same_user u w (sym e ∙ ap (λ k. lookup k c.user_map) (sym same) ∙ f) in
            inr (same, (ap UserData.sector_x is_u ∙ at.0, ap UserData.sector_y is_u ∙ at.1))
        | inr ne ↦ inl (h, ne)
      ],
      λ h. elim h [
        | inl (held, _) ↦ held
        | inr (same, at) ↦
            ap (λ k. contains k (c.sector_grid a b)) same ∙ (stands v id u a b e at).0
      ],
    )

-- For a user whom the map does not know, each of these jobs dereferences the null pointer that
-- `userMap[_id]` has just put there; the test that follows never fires.
pub missing_user_faults :
    (env : Environment) (id account_no msg_len : ℕ) (name nickname message : List ℕ) (x y : ℤ)
    (c : Content)
    → lookup id c.user_map ≡ none
    → (login_process env id account_no name nickname c ≡ none)
      × (move_sector env id x y c ≡ none)
      × (send_message env id msg_len message c ≡ none)
unfolding login_process move_sector send_message
missing_user_faults env id account_no msg_len name nickname message x y c e =
    (rw missing refl, rw missing refl, rw missing refl)
  where
    missing : user_at id c ≡ (record c { user_map = assign id none c.user_map }, none)
    missing = user_at_missing id c e
