-- ===== src/Content.antt =====
-- chattingContent.cpp and chattingContent.h: the users, the grid of sectors, and the jobs of the
-- content thread. A pointer to `userData` is the record or, for null, `none`; a step that is
-- `none` dereferences null, leaves the grid or a buffer. What a job reports to the server is put
-- at the end of `reported`, and a user that the pool is given at the end of `given_back`. Logging is
-- left out.
pub mod Jobs
pub mod Invariant
pub mod Connected
pub mod History
pub mod Neighbors
pub mod Unconnected
pub mod Moves
pub mod Messages
pub mod Packets
pub mod Preserved
pub mod Sessions
mod HistoryTests
pub mod Tests
use chatting_server_single.Common.{
  ℕ, ◌+◌, ◌*◌, ◌-◌, ◌%◌, ◌^◌, Bool, true, false, ◌&&◌, List, [], ◌∷◌, ◌++◌, map, Option, none, some,
  ◌>>=◌, ◌>>◌, guard, ltb, leb, if◌then◌else◌, length, slice, ℤ, pos, negsuc, ◌+ℤ◌, leb_ℤ, eq_ℤ,
  pattern_of, contains, insert, erase, lookup, assign, erase_key,
}
use chatting_server_single.Serializer.{write_fields, set_string}
use chatting_server_single.Serializer.Memory.{
  Serializer, Block, clear, move_front, move_rear, inc_reference_counter,
}

-- `AccountNo` is a bit pattern, and the two strings are the bytes of `WCHAR[20]`.
pub record UserData : Type 0 where
  pub session_id : ℕ
  pub account_no : ℕ
  pub name : List ℕ
  pub nickname : List ℕ
  pub last_recv_tick : ℕ
  pub sector_x : ℤ
  pub sector_y : ℤ

abbrev pub Grid : Type 0
Grid = ℕ → ℕ → List ℕ

-- `sendPacket` to some sessions, and `disconnectReq`.
pub data Report : Type 0 where
  sent : List ℕ → Serializer → Report
  disconnected : ℕ → Report

pub record Content : Type 0 where
  pub user_map : List (ℕ × Option UserData)
  pub mapping_table : List (ℕ × ℕ)
  pub sector_grid : Grid
  pub job_tps : ℕ
  pub reported : List Report
  pub given_back : List UserData

-- What the pools, the clock and the C library return during a job: `copy_string dst src` is
-- `wcscpy_s`, with `none` where it ends the program. `erased u` is what `target->second` reads after
-- `userMap.erase(target)`, if it was `u` before, with `none` where this reading faults.
pub record Environment : Type 0 where
  pub blank : UserData
  pub fresh : Serializer
  pub blocks : List Block
  pub tick : ℕ
  pub copy_string : List ℕ → List ℕ → Option (List ℕ)
  pub erased : UserData → Option UserData

unfoldable pub init : Content
init = record {
  user_map = [];
  mapping_table = [];
  sector_grid = λ x y. [];
  job_tps = 0;
  reported = [];
  given_back = [];
}

-- `sectorGrid[x][y]` inside the 51 × 51 sectors, changed by `f`.
unfoldable pub at_sector : ℤ → ℤ → (List ℕ → List ℕ) → Grid → Option Grid
at_sector (pos x) (pos y) f g =
    if ltb x 51 && ltb y 51
    then some (λ i j. if eq_ℤ (pos i) (pos x) && eq_ℤ (pos j) (pos y) then f (g i j) else g i j)
    else none
at_sector (pos x) (negsuc y) f g = none
at_sector (negsuc x) y f g = none

-- `sectorX` is -1 as long as a user is in no sector.
abbrev pub placed : UserData → Bool
placed u = if eq_ℤ u.sector_x (negsuc 0) then false else true

unfoldable pub create_new_user : Environment → ℕ → Content → Content
create_new_user env id c = record c {
  user_map = assign id (some new_user) c.user_map;
  mapping_table = assign id id c.mapping_table;
}
  where
    new_user : UserData
    new_user = record env.blank {
      session_id = id;
      sector_x = negsuc 0;
      last_recv_tick = env.tick;
      account_no = 2 ^ 64 - 1;
    }

-- A user out of the sector it is in.
unfoldable pub leave_sector : ℕ → UserData → Grid → Option Grid
leave_sector id u g = if placed u then at_sector u.sector_x u.sector_y (erase id) g else some g

-- `erase` of a session that is not in the table does nothing, so its test is not repeated here.
unfoldable pub delete_user : Environment → ℕ → Content → Option Content
delete_user env id c = elim (lookup id c.user_map) [
  | none ↦ some c
  | some none ↦ none
  | some (some u) ↦ leave_sector id u c.sector_grid >>= λ g. env.erased u >>= λ w. some (record c {
    sector_grid = g;
    mapping_table = erase_key u.session_id c.mapping_table;
    user_map = erase_key id c.user_map;
    given_back = c.given_back ++ w ∷ [];
  })
]

-- `userMap[_id]`: a missing key gets a null pointer, so that the `find` which follows in each job
-- finds it.
unfoldable pub user_at : ℕ → Content → Content × Option UserData
user_at id c = elim (lookup id c.user_map) [
  | none ↦ (record c { user_map = assign id none c.user_map }, none)
  | some p ↦ (c, p)
]

-- A serializer from the pool, cleared, with room for the header in front of its head.
unfoldable pub new_packet : Environment → Serializer
unfolding clear move_front move_rear inc_reference_counter
new_packet env =
    (inc_reference_counter (move_front (move_rear (clear env.fresh) (pos 5)).0 (pos 5)).0 1).0

abbrev pub report : Report → Content → Content
report r c = record c { reported = c.reported ++ r ∷ [] }

unfoldable pub login_process : Environment → ℕ → ℕ → List ℕ → List ℕ → Content → Option Content
unfolding user_at new_packet
login_process env id account_no name nickname c =
    let (c', p) = user_at id c in
    p >>= λ u. do
      name' ← env.copy_string u.name name
      nickname' ← env.copy_string u.nickname nickname
      let u' = record u { account_no = account_no; name = name'; nickname = nickname' }
      packet ← write_fields env.blocks ((2, 2) ∷ (1, 1) ∷ (8, account_no) ∷ []) (new_packet env)
      some (
          report (sent (u.session_id ∷ []) packet)
            (record c' { user_map = assign id (some u') c'.user_map }))

unfoldable pub move_sector : Environment → ℕ → ℤ → ℤ → Content → Option Content
unfolding user_at leave_sector new_packet
move_sector env id x y c =
    let (c', p) = user_at id c in
    p >>= λ u. do
      g ← leave_sector id u c'.sector_grid
      let u' = record u { sector_x = x; sector_y = y }
      g' ← at_sector x y (insert id) g
      packet ←
          write_fields env.blocks
            ((2, 4) ∷ (8, u.account_no) ∷ (2, pattern_of 16 x) ∷ (2, pattern_of 16 y) ∷ [])
            (new_packet env)
      some (
          report (sent (u.session_id ∷ []) packet)
            (record c' { user_map = assign id (some u') c'.user_map; sector_grid = g' }))

-- The nine offsets, in the order of `x_Offset` and `y_Offset`.
abbrev pub offsets : List (ℤ × ℤ)
offsets =
    (negsuc 0, negsuc 0)
    ∷ (pos 0, negsuc 0)
    ∷ (pos 1, negsuc 0)
    ∷ (negsuc 0, pos 0)
    ∷ (pos 0, pos 0)
    ∷ (pos 1, pos 0)
    ∷ (negsuc 0, pos 1)
    ∷ (pos 0, pos 1)
    ∷ (pos 1, pos 1)
    ∷ []

abbrev pub in_grid : ℤ × ℤ → Bool
in_grid (x, y) = (leb_ℤ (pos 0) x && leb_ℤ x (pos 50)) && (leb_ℤ (pos 0) y && leb_ℤ y (pos 50))

unfoldable pub sectors_near : ℤ → ℤ → List (ℤ × ℤ) → List (ℤ × ℤ)
sectors_near x y [] = []
sectors_near x y ((dx, dy) ∷ ds) =
    let rest = sectors_near x y ds in
    if in_grid (x +ℤ dx, y +ℤ dy) then (x +ℤ dx, y +ℤ dy) ∷ rest else rest

unfoldable pub find_neighbor_sector : ℤ → ℤ → List (ℤ × ℤ)
unfolding sectors_near
find_neighbor_sector x y = if eq_ℤ x (negsuc 0) then [] else sectors_near x y offsets
