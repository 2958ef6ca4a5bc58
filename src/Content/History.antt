-- ===== src/Content/History.antt =====
-- The jobs of sessions that come and go, one after the other.
use chatting_server_single.Common.{
  ℕ, ◌+◌, ◌*◌, ◌≤◌, ◌≡◌, ◌≢◌, inl, inr, refl, arith, Bool, true, false, List, ◌++◌, [], ◌∷◌, lookup,
  lookup-assign_self, lookup-assign_ne, length, some, if◌then◌else◌, replaced, pos, pattern_of, u64,
}
use chatting_server_single.Content.{
  UserData, Content, Environment, sent, report, placed, offsets, create_new_user, delete_user,
  login_process, move_sector,
}
use chatting_server_single.Content.Jobs.{
  Job, JobId, new_user_data, delete_user_data, login, move_user, message_out, apply_job, update,
  find_neighbor, send_message, users_near,
}
use chatting_server_single.Content.Invariant.{counted-IsValid, user_at_known}
use chatting_server_single.Content.Messages.{send_message_lem}
use chatting_server_single.Content.Preserved.{create_new_user_lem, move_sector_lem}
use chatting_server_single.Content.Sessions.{delete_user_lem, login_process_lem}
use chatting_server_single.Content.Connected.{
  Serves, Fits, live_after, AllFit, live_at_end, Agrees, kept-Agrees, counted-Agrees,
}

module _ (env : Environment) (live : ℕ → Bool) (c : Content) (a : Agrees live c) where
  replaced-ne : (id : ℕ) (b : Bool) (j : ℕ) → j ≢ id → replaced live id b j ≡ live j
  replaced-ne id b j ne = ground arith

  replaced-here : (id : ℕ) (b : Bool) → replaced live id b id ≡ b
  replaced-here id b = ground arith

  connect-Agrees :
      (id : ℕ)
      → live id ≡ false
      → length env.blank.name ≤ 40
      → length env.blank.nickname ≤ 40
      → Agrees (replaced live id true) (create_new_user env id c)
  unfolding create_new_user
  connect-Agrees id off n k =
      let (v, _) = create_new_user_lem env id c a.valid (a.unknown id off) in
      kept-Agrees live (replaced live id true) c (create_new_user env id c) id a v
        (replaced-ne id true) (λ j ne. lookup-assign_ne id j _ c.user_map ne)
        (inl (replaced-here id true, (_, lookup-assign_self id _ c.user_map, n, k)))

  delete-Agrees :
      (job : Job)
      → Serves env job
      → (id : ℕ) → live id ≡ true
      → (c' : Content) × (delete_user env id c ≡ some c') × Agrees (replaced live id false) c'
  delete-Agrees job s id on =
      let (u, known, _, _) = a.known id on in
      let (w, read) = s.erased u in
      let (c', e, v, gone, _, others, _, _) = delete_user_lem env id u w c a.valid known read in
      (
        c',
        e,
        kept-Agrees live (replaced live id false) c c' id a v (replaced-ne id false) others
            (inr (replaced-here id false, gone)),
      )

  login-Agrees :
      (job : Job)
      → Serves env job
      → live job.target_id ≡ true
      → (c' : Content) × (login_process env job.target_id job.account_no job.content_id
            job.content_nickname c
          ≡ some c')
        × Agrees live c'
  login-Agrees job s on =
      let (u, known, _, _) = a.known job.target_id on in
      let (name, e, n) = s.names u.name in
      let (nickname, f, k) = s.nicknames u.nickname in
      let (c', p, ran, v, own, others, _, _, _) =
        login_process_lem env job.target_id job.account_no job.content_id job.content_nickname name
          nickname u c a.valid known e f (s.ready.0, omega (arith, s.ready.1)) in
      (
        c',
        ran,
        kept-Agrees live live c c' job.target_id a v (λ j ne. refl) others
            (inl (on, (_, own, n, k))),
      )

  move-Agrees :
      (job : Job) (x y : ℕ)
      → Serves env job
      → live job.target_id ≡ true
      → x ≤ 50
      → y ≤ 50
      → (c' : Content) × (move_sector env job.target_id (pos x) (pos y) c ≡ some c')
        × Agrees live c'
  move-Agrees job x y s on low high =
      let (u, known, n, k) = a.known job.target_id on in
      let (c', p, ran, v, _, own, others, _, _) =
        move_sector_lem env job.target_id x y u c a.valid known low high
          (s.ready.0, omega (arith, s.ready.1)) in
      (
        c',
        ran,
        kept-Agrees live live c c' job.target_id a v (λ j ne. refl) others
            (inl (on, (_, own, n, k))),
      )

  message-Agrees :
      (job : Job)
      → Serves env job
      → live job.target_id ≡ true
      → 2 * pattern_of 16 job.msg_len ≤ length job.message
      → (c' : Content) × (send_message env job.target_id (pattern_of 16 job.msg_len) job.message c
          ≡ some c')
        × Agrees live c'
  unfolding find_neighbor
  message-Agrees job s on held =
      let (u, known, n, k) = a.known job.target_id on in
      let (ids, near) = neighbors_of job.target_id u known in
      let (p, ran, _) =
        send_message_lem env u (pattern_of 16 job.msg_len) job.message held
          (s.ready.0, omega (arith, s.ready.1, n, k)) job.target_id c ids known near in
      (
        report (sent ids p) c,
        ran,
        record {
          valid = counted-IsValid a.valid c.job_tps (c.reported ++ sent ids p ∷ []);
          known = a.known;
          unknown = a.unknown;
        },
      )
    where
      neighbors_of :
          (id : ℕ) (u : UserData)
          → lookup id c.user_map ≡ some (some u)
          → (ids : List ℕ) × (find_neighbor id c ≡ some ids)
      neighbors_of id u e = (
        if placed u then users_near c.sector_grid u.sector_x u.sector_y offsets else [],
        rw (user_at_known id c (some u) e) refl,
      )

  job-Agrees :
      (job : Job) (kind : JobId)
      → job.id ≡ kind
      → Serves env job
      → Fits kind live job
      → (c' : Content) × (apply_job env job c ≡ some c')
        × Agrees (live_after kind job.target_id live) c'
  unfolding apply_job
  job-Agrees job new_user_data e s off = (
    create_new_user env job.target_id c,
    rw e refl,
    connect-Agrees job.target_id off s.short_name s.short_nickname,
  )
  job-Agrees job delete_user_data e s on =
      let (c', ran, ok) = delete-Agrees job s job.target_id on in (c', rw e ran, ok)
  job-Agrees job login e s on = let (c', ran, ok) = login-Agrees job s on in (c', rw e ran, ok)
  job-Agrees job move_user e s (on, (x, y, ex, ey, low, high)) =
      let (c', ran, ok) = move-Agrees job x y s on low high in (c', rw (e, ex, ey) ran, ok)
  job-Agrees job message_out e s (on, held) =
      let (c', ran, ok) = message-Agrees job s on held in (c', rw e ran, ok)

-- The content thread takes any sequence of jobs without a fault, if each job is one that its
-- session may ask for at that time: sessions connect that are not connected, and the others log in,
-- move inside the grid, send messages or are deleted while they are connected; the names have at
-- most 20 characters, `wcscpy_s` accepts them, the pool has a serializer with room for the packet,
-- and the entry that `deleteUser` has just erased can still be read. Afterwards the content is valid, and it knows exactly the sessions that are still connected.
pub history_lem :
    (jobs : List (Environment × Job)) (live : ℕ → Bool) (c : Content)
    → Agrees live c
    → AllFit live jobs
    → (c' : Content) × (update jobs c ≡ some c') × Agrees (live_at_end live jobs) c'
unfolding update
history_lem [] live c a fit = (c, refl, a)
history_lem ((env, job) ∷ jobs) live c a (s, fit, rest) =
    let counted = record c { job_tps = u64 (c.job_tps + 1) } in
    let (c1, ran, ok) =
      job-Agrees env live counted (counted-Agrees live c (u64 (c.job_tps + 1)) a) job job.id refl s
        fit in
    let (c', on, at_end) = history_lem jobs (live_after job.id job.target_id live) c1 ok rest in
    (c', rw ran on, at_end)
