-- ===== src/Content/Unconnected.antt =====
-- Jobs of sessions that are not connected.
use chatting_server_single.Common.{
  Option, none, ◌>>=◌, ap, ◌∙◌, ℕ, ◌+◌, ◌≡◌, refl, arith, Bool, false, List, ◌++◌, [], ◌∷◌, lookup,
  some, pos, pattern_of, u64,
}
use chatting_server_single.Content.{Content, Environment}
use chatting_server_single.Content.Jobs.{
  Job, JobId, new_user_data, delete_user_data, login, move_user, message_out, apply_job, update,
}
use chatting_server_single.Content.Connected.{AllFit, live_at_end, Agrees}
use chatting_server_single.Content.History.{history_lem}
use chatting_server_single.Content.Sessions.{missing_user_faults}

then_none {ℓ κ μ} :
    {A : Type ℓ} {B : Type κ} {C : Type μ} (m : Option A) (f : A → Option B) (g : A → Option C)
    {b : B}
    → (m >>= f) ≡ some b
    → ((a : A) → f a ≡ some b → g a ≡ none)
    → (m >>= g) ≡ none
then_none none f g h k = refl
then_none (some a) f g h k = k a h

some_injective : (c c' : Content) → ◌≡◌ {A = Option Content} (some c) (some c') → c ≡ c'
some_injective c c' h = ground arith

-- Jobs that are done, and others at which the thread faults.
update-append_none :
    (jobs more : List (Environment × Job)) (c c' : Content)
    → update jobs c ≡ some c'
    → update more c' ≡ none
    → update (jobs ++ more) c ≡ none
unfolding update
update-append_none [] more c c' h k = ap (update more) (some_injective c c' h) ∙ k
update-append_none ((env, job) ∷ jobs) more c c' h k =
    then_none (apply_job env job (record c { job_tps = u64 (c.job_tps + 1) })) (λ d. update jobs d)
      (λ d. update (jobs ++ more) d) h (λ d e. update-append_none jobs more d c' e k)

-- A job that needs the record of its user.
abbrev pub NeedsUser : JobId → Type 0
NeedsUser new_user_data = ◌≡◌ {A = ℕ} 0 1
NeedsUser delete_user_data = ◌≡◌ {A = ℕ} 0 1
NeedsUser login = Unit
NeedsUser move_user = Unit
NeedsUser message_out = Unit

job-unknown :
    (env : Environment) (job : Job) (kind : JobId) (c : Content)
    → job.id ≡ kind
    → NeedsUser kind
    → lookup job.target_id c.user_map ≡ none
    → apply_job env job c ≡ none
unfolding apply_job
job-unknown env job new_user_data c e needs gone = absurd (omega (arith, needs))
job-unknown env job delete_user_data c e needs gone = absurd (omega (arith, needs))
job-unknown env job login c e needs gone =
    rw e
      (missing_user_faults env job.target_id job.account_no 0 job.content_id job.content_nickname []
        (pos 0) (pos 0) c gone).0
job-unknown env job move_user c e needs gone =
    rw e (missing_user_faults env job.target_id 0 0 [] [] [] job.sector_x job.sector_y c gone).1
job-unknown env job message_out c e needs gone =
    rw e
      (missing_user_faults env job.target_id 0 (pattern_of 16 job.msg_len) [] [] job.message (pos 0)
        (pos 0) c gone).2

-- The content thread has taken any sequence of jobs, each one that its session may ask for at that
-- time and that its environment serves: sessions connect that are not connected, and the others log
-- in, move inside the grid, send messages or are deleted while they are connected. Then a login, a
-- move or a message of a session that is not connected any more, or not yet, dereferences null,
-- whatever jobs come behind it.
pub unconnected_faults :
    (jobs more : List (Environment × Job)) (live : ℕ → Bool) (c : Content) (env : Environment)
    (job : Job)
    → Agrees live c
    → AllFit live jobs
    → live_at_end live jobs job.target_id ≡ false
    → NeedsUser job.id
    → update (jobs ++ (env, job) ∷ more) c ≡ none
unfolding update
unconnected_faults jobs more live c env job a fit off needs =
    let (c', ran, at_end) = history_lem jobs live c a fit in
    update-append_none jobs ((env, job) ∷ more) c c' ran (
      rw
        (job-unknown env job job.id (record c' { job_tps = u64 (c'.job_tps + 1) }) refl needs
          (at_end.unknown job.target_id off))
        refl)
