-- ===== src/Content/HistoryTests.antt =====
-- Two sessions that connect, log in, move, talk and go.
use mathlib.Core.Bool.{false≢true}
use chatting_server_single.Common.{
  ℕ, none, ◌++◌, ◌≡◌, refl, arith, Bool, false, List, [], ◌∷◌, some, pos,
}
use chatting_server_single.Content.{Content, Environment, init}
use chatting_server_single.Content.Jobs.{
  Job, JobId, new_user_data, delete_user_data, login, move_user, message_out, update,
}
use chatting_server_single.Content.Connected.{Serves, AllFit, Agrees, live_at_end}
use chatting_server_single.Content.History.{history_lem}
use chatting_server_single.Content.Unconnected.{unconnected_faults}
use chatting_server_single.Content.Tests.{env, pooled-IsValid, init-IsValid}

abbrev job : JobId → ℕ → Job
job kind id = record {
  id = kind;
  target_id = id;
  account_no = 77;
  content_id = 1 ∷ [];
  content_nickname = 2 ∷ [];
  session_key = [];
  sector_x = pos 3;
  sector_y = pos 4;
  message = 72 ∷ 0 ∷ 73 ∷ 0 ∷ [];
  msg_len = pos 2;
}

abbrev day : List (Environment × Job)
day =
    (env, job new_user_data 7)
    ∷ (env, job new_user_data 9)
    ∷ (env, job login 7)
    ∷ (env, job move_user 7)
    ∷ (env, job message_out 9)
    ∷ (env, job delete_user_data 9)
    ∷ (env, job new_user_data 9)
    ∷ (env, job delete_user_data 7)
    ∷ []

nobody : ℕ → Bool
nobody id = false

job-Serves : (kind : JobId) (id : ℕ) → Serves env (job kind id)
job-Serves kind id = record {
  short_name = omega arith;
  short_nickname = omega arith;
  names = λ dst. (1 ∷ [], refl, omega arith);
  nicknames = λ dst. (2 ∷ [], refl, omega arith);
  erased = λ u. (u, refl);
  ready = (pooled-IsValid, ground arith);
}

init-Agrees : Agrees nobody init
unfolding init nobody
init-Agrees = record {
  valid = init-IsValid;
  known = λ id on. absurd (false≢true on);
  unknown = λ id off. refl;
}

day-AllFit : AllFit nobody day
unfolding nobody
day-AllFit = (
  job-Serves new_user_data 7,
  refl,
  (
    job-Serves new_user_data 9,
    refl,
    (
      job-Serves login 7,
      refl,
      (
        job-Serves move_user 7,
        (refl, (3, 4, refl, refl, omega arith, omega arith)),
        (
          job-Serves message_out 9,
          (refl, omega arith),
          (
            job-Serves delete_user_data 9,
            refl,
            (job-Serves new_user_data 9, refl, (job-Serves delete_user_data 7, refl, tt)),
          ),
        ),
      ),
    ),
  ),
)

history_lem_example :
    (c' : Content) × (update day init ≡ some c') × Agrees (live_at_end nobody day) c'
unfolding nobody
history_lem_example = history_lem day nobody init init-Agrees day-AllFit

-- Session 7 has gone, and a login of it comes after all.
unconnected_faults_example :
    update (day ++ (env, job login 7) ∷ (env, job new_user_data 3) ∷ []) init ≡ none
unfolding nobody
unconnected_faults_example =
    unconnected_faults day ((env, job new_user_data 3) ∷ []) nobody init env (job login 7)
      init-Agrees day-AllFit refl tt
