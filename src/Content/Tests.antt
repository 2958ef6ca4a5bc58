-- ===== src/Content/Tests.antt =====
-- Two users next to each other, a third one who arrives, and the theorems about the content at
-- these.
use mathlib.Core.Bool.{false≢true}
use mathlib.Core.Option.{some-ne-none}
use chatting_server_single.Common.{
  sym, ℕ, ◌+◌, ◌≡◌, ◌≢◌, ◌↔◌, refl, arith, true, ◌&&◌, ◌==◌, List, [], ◌∷◌, ◌++◌, none, some, ℤ,
  pos, if◌then◌else◌, replicate, contains, lookup,
}
use chatting_server_single.Serializer.Memory.{Serializer}
use chatting_server_single.Serializer.Invariant as Buffer
use chatting_server_single.Serializer.Contents.{contents}
use chatting_server_single.Serializer.Scalars.{field_bytes}
use chatting_server_single.Content.{
  UserData, Content, Environment, sent, init, delete_user, login_process, move_sector,
  find_neighbor_sector, report,
}
use chatting_server_single.Content.Messages.{message_bytes, send_message_lem}
use chatting_server_single.Content.Jobs.{find_neighbor, send_message}
use chatting_server_single.Content.Invariant.{IsValid, At}
use chatting_server_single.Content.Neighbors.{Near, find_neighbor_lem}
use chatting_server_single.Content.Preserved.{put-IsValid, move_sector_lem}
use chatting_server_single.Content.Sessions.{delete_user_lem, login_process_lem}

abbrev pooled : Serializer
pooled = record {
  buffer_ptr = 4096;
  buffer_size = 128;
  head_ptr = 4100;
  tail_ptr = 4120;
  bytes = replicate 128 0;
  reference_counter = 0;
}

abbrev pub user : ℕ → ℤ → ℤ → UserData
user id x y = record {
  session_id = id;
  account_no = 500 + id;
  name = replicate 40 65;
  nickname = replicate 40 66;
  last_recv_tick = 0;
  sector_x = x;
  sector_y = y;
}

abbrev pub env : Environment
env = record {
  blank = user 0 (pos 0) (pos 0);
  fresh = pooled;
  blocks = [];
  tick = 1000;
  copy_string = λ dst src. some src;
  erased = λ u. some u;
}

pub pooled-IsValid : Buffer.IsValid pooled
pooled-IsValid = omega arith

-- User 7 in sector (3, 4).
abbrev one : Content
one = record init {
  user_map = (7, some (user 7 (pos 3) (pos 4))) ∷ [];
  mapping_table = (7, 7) ∷ [];
  sector_grid = λ x y. if x == 3 && y == 4 then 7 ∷ [] else [];
}

-- And user 9 in sector (4, 5).
abbrev pub two : Content
two = record one {
  user_map = (7, some (user 7 (pos 3) (pos 4))) ∷ (9, some (user 9 (pos 4) (pos 5))) ∷ [];
  mapping_table = (7, 7) ∷ (9, 9) ∷ [];
  sector_grid = λ x y. if x == 3 && y == 4 then 7 ∷ [] else if x == 4 && y == 5 then 9 ∷ [] else [];
}

pub init-IsValid : IsValid init
unfolding init
init-IsValid = record {
  present = λ id p e. absurd (some-ne-none p (sym e));
  recorded = λ id u e. absurd (some-ne-none (some u) (sym e));
  standing = λ x y id h. absurd (false≢true h);
}

one-IsValid : IsValid one
unfolding At init
one-IsValid =
    put-IsValid init-IsValid 7 (user 7 (pos 3) (pos 4)) one refl refl (λ j ne. ground arith)
      (λ j a b. ground arith) (λ _. (3, 4, omega arith, omega arith, (refl, refl)))

pub two-IsValid : IsValid two
unfolding At
two-IsValid =
    put-IsValid one-IsValid 9 (user 9 (pos 4) (pos 5)) two refl refl (λ j ne. ground arith)
      (λ j a b. ground arith) (λ _. (4, 5, omega arith, omega arith, (refl, refl)))

-- Four of the nine sectors around a corner lie in the grid.
corner :
    find_neighbor_sector (pos 0) (pos 50)
    ≡ (pos 0, pos 49) ∷ (pos 1, pos 49) ∷ (pos 0, pos 50) ∷ (pos 1, pos 50) ∷ []
unfolding find_neighbor_sector
corner = refl

neighbors_of_7 : find_neighbor 7 two ≡ some (7 ∷ 9 ∷ [])
unfolding find_neighbor
neighbors_of_7 = refl

find_neighbor_lem_example :
    (ids : List ℕ) × (find_neighbor 7 two ≡ some ids)
    × ((j : ℕ)
        → (contains j ids ≡ true) ↔ (
            (w : UserData) × (a : ℕ) × (b : ℕ) × (lookup j two.user_map ≡ some (some w))
            × At w a b
            × Near a b 3 4))
unfolding At
find_neighbor_lem_example =
    find_neighbor_lem two 7 3 4 (user 7 (pos 3) (pos 4)) two-IsValid refl (refl, refl)

move_sector_lem_example :
    (c' : Content) × (p : Serializer) × (move_sector env 7 (pos 50) (pos 0) two ≡ some c')
    × IsValid c'
    × ((a b : ℕ) → (contains 7 (c'.sector_grid a b) ≡ true) ↔ ((a ≡ 50) × (b ≡ 0)))
    × (lookup 7 c'.user_map ≡ some (some (user 7 (pos 50) (pos 0))))
    × ((j : ℕ) → j ≢ 7 → lookup j c'.user_map ≡ lookup j two.user_map)
    × (c'.reported ≡ two.reported ++ sent (7 ∷ []) p ∷ [])
    × (contents p ≡ field_bytes ((2, 4) ∷ (8, 507) ∷ (2, 50) ∷ (2, 0) ∷ []))
move_sector_lem_example =
    move_sector_lem env 7 50 0 (user 7 (pos 3) (pos 4)) two two-IsValid refl (omega arith)
      (omega arith) (pooled-IsValid, omega arith)

delete_user_lem_example :
    (c' : Content) × (delete_user env 9 two ≡ some c')
    × IsValid c'
    × (lookup 9 c'.user_map ≡ none)
    × (lookup 9 c'.mapping_table ≡ none)
    × ((j : ℕ) → j ≢ 9 → lookup j c'.user_map ≡ lookup j two.user_map)
    × ((j a b : ℕ)
        → (contains j (c'.sector_grid a b) ≡ true)
          ↔ ((contains j (two.sector_grid a b) ≡ true) × (j ≢ 9)))
    × (c'.given_back ≡ two.given_back ++ user 9 (pos 4) (pos 5) ∷ [])
delete_user_lem_example =
    delete_user_lem env 9 (user 9 (pos 4) (pos 5)) (user 9 (pos 4) (pos 5)) two two-IsValid refl
      refl

login_process_lem_example :
    (c' : Content) × (p : Serializer) × (login_process env 9 77 (1 ∷ []) (2 ∷ []) two ≡ some c')
    × IsValid c'
    × (lookup 9 c'.user_map
        ≡ some (
            some (record (user 9 (pos 4) (pos 5)) {
              account_no = 77;
              name = 1 ∷ [];
              nickname = 2 ∷ [];
            })))
    × ((j : ℕ) → j ≢ 9 → lookup j c'.user_map ≡ lookup j two.user_map)
    × ((a b : ℕ) → c'.sector_grid a b ≡ two.sector_grid a b)
    × (c'.reported ≡ two.reported ++ sent (9 ∷ []) p ∷ [])
    × (contents p ≡ field_bytes ((2, 2) ∷ (1, 1) ∷ (8, 77) ∷ []))
login_process_lem_example =
    login_process_lem env 9 77 (1 ∷ []) (2 ∷ []) (1 ∷ []) (2 ∷ []) (user 9 (pos 4) (pos 5)) two
      two-IsValid refl refl refl (pooled-IsValid, omega arith)

send_message_lem_example :
    (p : Serializer) × (send_message env 7 2 (72 ∷ 0 ∷ 73 ∷ 0 ∷ 0 ∷ 0 ∷ []) two
      ≡ some (report (sent (7 ∷ 9 ∷ []) p) two))
    × (contents p ≡ message_bytes (user 7 (pos 3) (pos 4)) 2 (72 ∷ 0 ∷ 73 ∷ 0 ∷ 0 ∷ 0 ∷ []))
send_message_lem_example =
    send_message_lem env (user 7 (pos 3) (pos 4)) 2 (72 ∷ 0 ∷ 73 ∷ 0 ∷ 0 ∷ 0 ∷ []) (omega arith)
      (pooled-IsValid, omega arith) 7 two (7 ∷ 9 ∷ []) refl neighbors_of_7
