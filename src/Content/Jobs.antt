-- ===== src/Content/Jobs.antt =====
-- chattingContent.cpp: messages to the neighbours, the check for silent users, and the loop of the
-- content thread.
use chatting_server_single.Common.{
  ℕ, ◌+◌, ◌*◌, ◌-◌, ◌^◌, List, [], ◌∷◌, ◌++◌, Option, none, some, ◌>>=◌, ◌>>◌, guard, ltb, leb,
  if◌then◌else◌, u32, u64, length, slice, ℤ, pos, negsuc, ◌+ℤ◌, pattern_of,
}
use chatting_server_single.Serializer.{write_fields, write_scalar, set_string}
use chatting_server_single.Content.{
  UserData, Grid, Content, Environment, sent, disconnected, report, user_at, new_packet, placed,
  in_grid, offsets, create_new_user, delete_user, login_process, move_sector,
}

-- The users of a sector, none outside the grid.
abbrev pub users_in : Grid → ℤ × ℤ → List ℕ
users_in g (pos x, pos y) = g x y
users_in g (pos x, negsuc y) = []
users_in g (negsuc x, y) = []

unfoldable pub users_near : Grid → ℤ → ℤ → List (ℤ × ℤ) → List ℕ
users_near g x y [] = []
users_near g x y ((dx, dy) ∷ ds) =
    let rest = users_near g x y ds in
    if in_grid (x +ℤ dx, y +ℤ dy) then users_in g (x +ℤ dx, y +ℤ dy) ++ rest else rest

-- The users in the sectors next to a user's, its own included.
unfoldable pub find_neighbor : ℕ → Content → Option (List ℕ)
unfolding user_at users_near
find_neighbor id c = (user_at id c).1 >>= λ u.
    some (if placed u then users_near c.sector_grid u.sector_x u.sector_y offsets else [])

-- `message` holds the bytes from `job->message` on; `setWstring` copies `2 * msg_len` of them.
unfoldable pub send_message : Environment → ℕ → ℕ → List ℕ → Content → Option Content
unfolding user_at new_packet find_neighbor
send_message env id msg_len message c =
    let (c', p) = user_at id c in
    p >>= λ u. do
      p1 ← write_fields env.blocks ((2, 6) ∷ (8, u.account_no) ∷ []) (new_packet env)
      p2 ← set_string u.name p1
      p3 ← set_string u.nickname p2
      p4 ← write_scalar env.blocks 2 msg_len p3
      guard (leb (2 * msg_len) (length message))
      p5 ← set_string (slice message 0 (2 * msg_len)) p4
      targets ← find_neighbor id c'
      some (report (sent targets p5) c')

-- The difference of ticks wraps; `threshold` becomes unsigned in the comparison.
unfoldable pub time_out_check : ℕ → List (ℕ × Option UserData) → Content → Option Content
time_out_check tick [] c = some c
time_out_check tick ((id, none) ∷ m) c = none
time_out_check tick ((id, some u) ∷ m) c = time_out_check tick m (
    if ltb 40000 (u32 (tick + 2 ^ 32 - u.last_recv_tick))
    then report (disconnected u.session_id) c
    else c)

pub data JobId : Type 0 where
  new_user_data : JobId
  delete_user_data : JobId
  login : JobId
  move_user : JobId
  message_out : JobId

-- A pointer into the packet of a job is given by the bytes from there on.
pub record Job : Type 0 where
  pub id : JobId
  pub target_id : ℕ
  pub account_no : ℕ
  pub content_id : List ℕ
  pub content_nickname : List ℕ
  pub session_key : List ℕ
  pub sector_x : ℤ
  pub sector_y : ℤ
  pub message : List ℕ
  pub msg_len : ℤ

unfoldable pub apply_job : Environment → Job → Content → Option Content
apply_job env job c = elim job.id [
  | new_user_data ↦ some (create_new_user env job.target_id c)
  | delete_user_data ↦ delete_user env job.target_id c
  | login ↦ login_process env job.target_id job.account_no job.content_id job.content_nickname c
  | move_user ↦ move_sector env job.target_id job.sector_x job.sector_y c
  | message_out ↦ send_message env job.target_id (pattern_of 16 job.msg_len) job.message c
]

-- The jobs in the order of the queue, each with what its environment returns.
unfoldable pub update : List (Environment × Job) → Content → Option Content
unfolding apply_job
update [] c = some c
update ((env, job) ∷ jobs) c =
    apply_job env job (record c { job_tps = u64 (c.job_tps + 1) }) >>= λ c'. update jobs c'
