-- ===== src/Server/Moving.antt =====
-- A request to move, from the packet to the answer.
use chatting_server_single.Common.{
  ℕ, ◌+◌, ◌^◌, ◌<◌, ◌≤◌, ◌≡◌, ◌↔◌, ◌⊎◌, inl, inr, refl, ◌∙◌, ap, arith, true, List, [], ◌∷◌, ◌++◌,
  none, some, ◌>>=◌, map, pos, contains, insert, lookup, u64,
}
use chatting_server_single.Serializer.Memory.{Serializer}
use chatting_server_single.Serializer.Invariant as Buffer
use chatting_server_single.Serializer.Contents.{contents}
use chatting_server_single.Serializer.Scalars.{field_bytes}
use chatting_server_single.Serializer.Sealing.{signed16}
use chatting_server_single.Content.{
  UserData, Grid, Content, Environment, sent, at_sector, move_sector,
}
use chatting_server_single.Content.Jobs.{Job, move_user, apply_job, update}
use chatting_server_single.Content.Invariant.{IsValid, user_at_known, counted-IsValid}
use chatting_server_single.Content.Moves.{leave_lem}
use chatting_server_single.Content.Packets.{Ready}
use chatting_server_single.Content.Preserved.{own_number, move_sector_lem}
use chatting_server_single.Server.{Server, on_recv}
use chatting_server_single.Server.Parsing.{on_recv-move_lem}

-- No sector of the grid has a coordinate above 50, read with a sign.
at_sector-outside :
    (x y : ℕ) (f : List ℕ → List ℕ) (g : Grid)
    → x < 2 ^ 16
    → y < 2 ^ 16
    → (50 < x) ⊎ (50 < y)
    → at_sector (signed16 x) (signed16 y) f g ≡ none
unfolding at_sector signed16
at_sector-outside x y f g low high out = ground arith

signed16-small : (x : ℕ) → x ≤ 50 → signed16 x ≡ pos x
unfolding signed16
signed16-small x h = ground arith

move_sector-outside :
    (env : Environment) (id x y : ℕ) (u : UserData) (c : Content)
    → IsValid c
    → lookup id c.user_map ≡ some (some u)
    → x < 2 ^ 16
    → y < 2 ^ 16
    → (50 < x) ⊎ (50 < y)
    → move_sector env id (signed16 x) (signed16 y) c ≡ none
unfolding move_sector
move_sector-outside env id x y u c v known low high out =
    let (g, left, _) = leave_lem v id u known in
    rw (user_at_known id c (some u) known, left, at_sector-outside x y (insert id) g low high out)
      refl

inside_or_not : (x y : ℕ) → ((x ≤ 50) × (y ≤ 50)) ⊎ ((50 < x) ⊎ (50 < y))
inside_or_not x y = ground arith

module _ (env : Environment) (fresh : Job) (id account x y : ℕ) (rest : List ℕ) (p : Serializer)
    (srv : Server) (u : UserData) (c : Content) (packet : Buffer.IsValid p)
    (account_fits : account < 2 ^ 64) (x_fits : x < 2 ^ 16) (y_fits : y < 2 ^ 16)
    (held : contents p ≡ field_bytes ((2, 3) ∷ (8, account) ∷ (2, x) ∷ (2, y) ∷ []) ++ rest)
    (drained : srv.job_queue ≡ []) (valid : IsValid c)
    (known : lookup id c.user_map ≡ some (some u)) (ready : Ready env 14) where
  abbrev job : Job
  job = record fresh {
    id = move_user;
    target_id = id;
    account_no = account;
    sector_x = signed16 x;
    sector_y = signed16 y;
  }

  abbrev asked : Server
  asked = record srv { job_queue = srv.job_queue ++ job ∷ [] }

  abbrev counted : Content
  counted = record c { job_tps = u64 (c.job_tps + 1) }

  received : on_recv fresh id p srv ≡ some asked
  received = on_recv-move_lem fresh id account x y rest p srv packet account_fits x_fits y_fits held

  update-asked :
      update (map (λ j. (env, j)) asked.job_queue) c
      ≡ (move_sector env id (signed16 x) (signed16 y) counted >>= λ c'. some c')
  unfolding update apply_job
  update-asked = rw drained refl

  -- A valid packet of type 3 with an account and two coordinates arrives for a session whose user a
  -- valid content knows, no other job waits, and the pool has room for the answer: `OnRecv` takes
  -- it, and then the content thread, if both coordinates are at most 50, moves the user of the
  -- session to this sector and to no other, stays valid, and answers the session with the account
  -- of the user and the sector, whatever account the packet has; if one of them is more than 50, it
  -- leaves the grid.
  pub request_lem :
      (srv' : Server) × (on_recv fresh id p srv ≡ some srv')
      × (((x ≤ 50)
            × (y ≤ 50)
            × ((c' : Content) × (answer : Serializer) × (update
                    (map (λ j. (env, j)) srv'.job_queue)
                    c
                  ≡ some c')
                × IsValid c'
                × ((a b : ℕ) → (contains id (c'.sector_grid a b) ≡ true) ↔ ((a ≡ x) × (b ≡ y)))
                × (c'.reported ≡ c.reported ++ sent (id ∷ []) answer ∷ [])
                × (contents answer
                    ≡ field_bytes ((2, 4) ∷ (8, u.account_no) ∷ (2, x) ∷ (2, y) ∷ []))))
          ⊎ (((50 < x) ⊎ (50 < y)) × (update (map (λ j. (env, j)) srv'.job_queue) c ≡ none)))
  request_lem = (
    asked,
    received,
    elim (inside_or_not x y) [
      | inl (low, high) ↦
          let (c', answer, ran, v, stands, _, _, told, bytes) =
            move_sector_lem env id x y u counted (counted-IsValid valid _ _) known low high ready in
          inl (
            low,
            high,
            (
              c',
              answer,
              update-asked ∙ rw (signed16-small x low, signed16-small y high, ran) refl,
              v,
              stands,
              told
                  ∙ ap (λ k. c.reported ++ sent (k ∷ []) answer ∷ []) (own_number valid id u known),
              bytes,
            ),
          )
      | inr out ↦ inr (
        out,
        update-asked
            ∙ rw
                (move_sector-outside env id x y u counted (counted-IsValid valid _ _) known x_fits
                  y_fits out)
                refl,
      )
    ],
  )
