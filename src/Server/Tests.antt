-- ===== src/Server/Tests.antt =====
-- Two packets as clients write them, and what the server makes of them.
use chatting_server_single.Common.{
  ℕ, ◌≤◌, ◌<◌, ◌⊎◌, ◌↔◌, ◌++◌, none, true, map, contains, ◌≡◌, refl, arith, [], ◌∷◌, some, pos,
}
use chatting_server_single.Serializer.Memory.{Serializer, size}
use chatting_server_single.Serializer.Invariant as Buffer
use chatting_server_single.Serializer.Contents.{contents}
use chatting_server_single.Content.Jobs.{Job, new_user_data}
use chatting_server_single.Server.{Server, on_recv}
use chatting_server_single.Serializer.Scalars.{field_bytes}
use chatting_server_single.Content.{Content, sent}
use chatting_server_single.Content.Jobs.{update}
use chatting_server_single.Content.Invariant.{IsValid}
use chatting_server_single.Content.Tests.{env, user, two, two-IsValid, pooled-IsValid}
use chatting_server_single.Server.Moving.{request_lem}

-- The user of account 513 wants to go to sector (3, -1).
abbrev wish : Serializer
wish = record {
  buffer_ptr = 4096;
  buffer_size = 16;
  head_ptr = 4096;
  tail_ptr = 4111;
  bytes = 3 ∷ 0 ∷ 1 ∷ 2 ∷ 0 ∷ 0 ∷ 0 ∷ 0 ∷ 0 ∷ 0 ∷ 3 ∷ 0 ∷ 255 ∷ 255 ∷ 9 ∷ 0 ∷ [];
  reference_counter = 1;
}

wish-IsValid : Buffer.IsValid wish
wish-IsValid = omega arith

abbrev fresh : Job
fresh = record {
  id = new_user_data;
  target_id = 0;
  account_no = 0;
  content_id = [];
  content_nickname = [];
  session_key = [];
  sector_x = pos 0;
  sector_y = pos 0;
  message = [];
  msg_len = pos 0;
}

abbrev idle : Server
idle = record { job_queue = []; disconnected = [] }

-- The user of session 7 asks under another account.
abbrev request : Serializer
request = record wish {
  bytes = 3 ∷ 0 ∷ 1 ∷ 2 ∷ 0 ∷ 0 ∷ 0 ∷ 0 ∷ 0 ∷ 0 ∷ 50 ∷ 0 ∷ 2 ∷ 0 ∷ 9 ∷ 0 ∷ [];
}

request_lem_example :
    (srv' : Server) × (on_recv fresh 7 request idle ≡ some srv')
    × (((50 ≤ 50)
          × (2 ≤ 50)
          × ((c' : Content) × (answer : Serializer) × (update
                  (map (λ j. (env, j)) srv'.job_queue)
                  two
                ≡ some c')
              × IsValid c'
              × ((a b : ℕ) → (contains 7 (c'.sector_grid a b) ≡ true) ↔ ((a ≡ 50) × (b ≡ 2)))
              × (c'.reported ≡ two.reported ++ sent (7 ∷ []) answer ∷ [])
              × (contents answer ≡ field_bytes ((2, 4) ∷ (8, 507) ∷ (2, 50) ∷ (2, 2) ∷ []))))
        ⊎ (((50 < 50) ⊎ (50 < 2)) × (update (map (λ j. (env, j)) srv'.job_queue) two ≡ none)))
unfolding contents size
request_lem_example =
    request_lem env fresh 7 513 50 2 (9 ∷ []) request idle (user 7 (pos 3) (pos 4)) two
      (omega arith) (omega arith) (omega arith) (omega arith) refl refl two-IsValid refl
      (pooled-IsValid, omega arith)
