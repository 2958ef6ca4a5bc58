-- ===== src/Server/Parsing.antt =====
-- What the server makes of the packets that clients write.
use chatting_server_single.Common.{
  ℕ, ◌^◌, ◌<◌, ◌≡◌, ◌≢◌, refl, arith, false, List, [], ◌∷◌, ◌++◌, some, ◌==◌,
}
use chatting_server_single.Serializer.Memory.{Serializer}
use chatting_server_single.Serializer.Invariant.{IsValid}
use chatting_server_single.Serializer.Contents.{contents}
use chatting_server_single.Serializer.Scalars.{field_bytes, read_fields_lem}
use chatting_server_single.Serializer.Sealing.{signed16}
use chatting_server_single.Content.Jobs.{Job, move_user}
use chatting_server_single.Server.{Server, on_recv, parse_body, parse_move}

-- A valid packet of type 3 with an account and two coordinates becomes, whatever follows, one job
-- that moves the session's user there, behind the jobs that wait.
pub on_recv-move_lem :
    (fresh : Job) (id account x y : ℕ) (rest : List ℕ) (p : Serializer) (srv : Server)
    → IsValid p
    → account < 2 ^ 64
    → x < 2 ^ 16
    → y < 2 ^ 16
    → contents p ≡ field_bytes ((2, 3) ∷ (8, account) ∷ (2, x) ∷ (2, y) ∷ []) ++ rest
    → on_recv fresh id p srv
      ≡ some (record srv {
        job_queue =
            srv.job_queue
            ++ record fresh {
              id = move_user;
              target_id = id;
              account_no = account;
              sector_x = signed16 x;
              sector_y = signed16 y;
            }
              ∷ [];
      })
unfolding on_recv parse_body parse_move
on_recv-move_lem fresh id account x y rest p srv v a_fits x_fits y_fits held =
    let (p1, e1, c1, v1) =
      read_fields_lem ((2, 3) ∷ []) p (field_bytes ((8, account) ∷ (2, x) ∷ (2, y) ∷ []) ++ rest) v
        (omega arith) held in
    let (p2, e2, c2, v2) =
      read_fields_lem ((8, account) ∷ (2, x) ∷ (2, y) ∷ []) p1 rest v1 (omega arith) c1 in
    rw e1 (rw e2 refl)

-- A valid packet of a type that the server does not know makes no job, and has its session
-- disconnected.
pub on_recv-unknown_lem :
    (fresh : Job) (id type : ℕ) (rest : List ℕ) (p : Serializer) (srv : Server)
    → IsValid p
    → type < 2 ^ 16
    → type ≢ 1
    → type ≢ 3
    → type ≢ 5
    → contents p ≡ field_bytes ((2, type) ∷ []) ++ rest
    → on_recv fresh id p srv ≡ some (record srv { disconnected = srv.disconnected ++ id ∷ [] })
unfolding on_recv parse_body
on_recv-unknown_lem fresh id type rest p srv v fits n1 n3 n5 held =
    let (p1, e1, c1, v1) = read_fields_lem ((2, type) ∷ []) p rest v (omega arith) held in
    rw e1 (rw (no 1 n1, no 3 n3, no 5 n5) refl)
  where
    no : (k : ℕ) → type ≢ k → (type == k) ≡ false
    no k h = ground arith
