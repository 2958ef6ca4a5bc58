-- ===== src/Server.antt =====
-- chattingServer.cpp: what the network calls. Connections, disconnections and packets become jobs
-- in the queue of the content thread. A job from the pool is an argument; the references that a job
-- holds to its packet and the event that wakes the content thread are left out.
pub mod Moving
pub mod Parsing
pub mod Receiving
mod Tests
use chatting_server_single.Common.{
  ℕ, ◌+◌, ◌-◌, ◌^◌, Bool, true, false, List, [], ◌∷◌, ◌++◌, Option, none, some, ◌>>=◌, ◌==◌,
  if◌then◌else◌, get_or, length, slice, ℤ, pos,
}
use chatting_server_single.Serializer.{read_fields}
use chatting_server_single.Serializer.Memory.{Serializer, move_front}
use chatting_server_single.Serializer.Sealing.{signed16}
use chatting_server_single.Content.Jobs.{
  Job, JobId, new_user_data, delete_user_data, login, move_user, message_out,
}

-- `disconnected` has the sessions for which the server calls `disconnectReq`.
pub record Server : Type 0 where
  pub job_queue : List Job
  pub disconnected : List ℕ

-- `jopPool.New(id, targetID)`: the other members are what the pool's memory holds.
abbrev pub new_job : Job → JobId → ℕ → Job
new_job fresh id target = record fresh { id = id; target_id = target }

abbrev pub enqueue : Job → Server → Server
enqueue job srv = record srv { job_queue = srv.job_queue ++ job ∷ [] }

unfoldable pub on_new_connect : Job → ℕ → Server → Server
on_new_connect fresh id srv = enqueue (new_job fresh new_user_data id) srv

unfoldable pub on_disconnect : Job → ℕ → Server → Server
on_disconnect fresh id srv = enqueue (new_job fresh delete_user_data id) srv

unfoldable pub on_connection_request : ℕ → ℕ → Bool
on_connection_request ip port = true

-- The memory of a packet's block from the head on, which a job points to. It has no bytes behind
-- the end of the block.
abbrev pub from_head : Serializer → List ℕ
from_head p =
    slice p.bytes (p.head_ptr - p.buffer_ptr) (length p.bytes - (p.head_ptr - p.buffer_ptr))

-- The members that follow the type, for each type that the server knows.
unfoldable pub parse_login : Job → Serializer → Option Job
parse_login job p = do
  (fields, p1) ← read_fields (8 ∷ []) p
  let p2 = (move_front p1 (pos 40)).0
  let p3 = (move_front p2 (pos 40)).0
  some (record job {
    account_no = get_or fields 0 0;
    content_id = from_head p1;
    content_nickname = from_head p2;
    session_key = from_head p3;
  })

unfoldable pub parse_move : Job → Serializer → Option Job
parse_move job p = do
  (fields, p1) ← read_fields (8 ∷ 2 ∷ 2 ∷ []) p
  some (record job {
    account_no = get_or fields 0 0;
    sector_x = signed16 (get_or fields 1 0);
    sector_y = signed16 (get_or fields 2 0);
  })

unfoldable pub parse_message : Job → Serializer → Option Job
parse_message job p = do
  (fields, p1) ← read_fields (8 ∷ 2 ∷ []) p
  some (record job {
    account_no = get_or fields 0 0;
    msg_len = signed16 (get_or fields 1 0);
    message = from_head p1;
  })

unfoldable pub parse_body : Job → ℕ → ℕ → Serializer → Option (Option Job)
unfolding parse_login parse_move parse_message
parse_body fresh id type p =
    if type == 1
    then parse_login (new_job fresh login id) p >>= (λ job. some (some job))
    else if type == 3
    then parse_move (new_job fresh move_user id) p >>= (λ job. some (some job))
    else if type == 5
    then parse_message (new_job fresh message_out id) p >>= (λ job. some (some job))
    else some none

abbrev handled : ℕ → Option Job → Server → Server
handled id none srv = record srv { disconnected = srv.disconnected ++ id ∷ [] }
handled id (some job) srv = enqueue job srv

-- A packet of any other type has its session disconnected.
unfoldable pub on_recv : Job → ℕ → Serializer → Server → Option Server
unfolding parse_body
on_recv fresh id p srv = do
  (type, p') ← read_fields (2 ∷ []) p
  job ← parse_body fresh id (get_or type 0 0) p'
  some (handled id job srv)
