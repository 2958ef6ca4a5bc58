-- ===== src/Content/Connected.antt =====
-- Sessions that are connected, and the users that the content knows.
use chatting_server_single.Common.{
  ℕ, ◌+◌, ◌*◌, ◌≤◌, ◌≡◌, ◌≢◌, ◌⊎◌, inl, inr, sym, ap, ◌∙◌, Bool, true, false, List, [], ◌∷◌, lookup,
  length, some, none, replaced, pos, pattern_of,
}
use mathlib.Core.Bool.{false≢true}
use native.Mathlib.Decide.{ℕ_discrete}
use chatting_server_single.Content.{UserData, Content, Environment}
use chatting_server_single.Content.Jobs.{
  Job, JobId, new_user_data, delete_user_data, login, move_user, message_out,
}
use chatting_server_single.Content.Invariant.{counted-IsValid, IsValid}
use chatting_server_single.Content.Packets.{Ready}

-- The names are arrays of 20 characters, `wcscpy_s` accepts the names of the job, the pool has a
-- serializer with room for the longest packet, and the entry that `deleteUser` has just erased from
-- the map can still be read.
pub record Serves (env : Environment) (job : Job) : Type 0 where
  pub short_name : length env.blank.name ≤ 40
  pub short_nickname : length env.blank.nickname ≤ 40
  pub names :
      (dst : List ℕ)
      → (text : List ℕ) × (env.copy_string dst job.content_id ≡ some text) × (length text ≤ 40)
  pub nicknames :
      (dst : List ℕ)
      → (text : List ℕ) × (env.copy_string dst job.content_nickname ≡ some text)
        × (length text ≤ 40)
  pub erased : (u : UserData) → (w : UserData) × (env.erased u ≡ some w)
  pub ready : Ready env (92 + 2 * pattern_of 16 job.msg_len)

-- What a job may ask for when these sessions are connected: a new session is not connected yet, and
-- others are; sectors lie in the grid, and the characters of a message are there.
abbrev pub Fits : JobId → (ℕ → Bool) → Job → Type 0
Fits new_user_data live job = live job.target_id ≡ false
Fits delete_user_data live job = live job.target_id ≡ true
Fits login live job = live job.target_id ≡ true
Fits move_user live job =
    (live job.target_id ≡ true)
    × ((x : ℕ) × (y : ℕ) × (job.sector_x ≡ pos x) × (job.sector_y ≡ pos y) × (x ≤ 50) × (y ≤ 50))
Fits message_out live job =
    (live job.target_id ≡ true) × (2 * pattern_of 16 job.msg_len ≤ length job.message)

abbrev pub live_after : JobId → ℕ → (ℕ → Bool) → ℕ → Bool
live_after new_user_data id live = replaced live id true
live_after delete_user_data id live = replaced live id false
live_after login id live = live
live_after move_user id live = live
live_after message_out id live = live

abbrev pub AllFit : (ℕ → Bool) → List (Environment × Job) → Type 0
AllFit live [] = Unit
AllFit live ((env, job) ∷ jobs) =
    Serves env job × Fits job.id live job × AllFit (live_after job.id job.target_id live) jobs

abbrev pub live_at_end : (ℕ → Bool) → List (Environment × Job) → ℕ → Bool
live_at_end live [] = live
live_at_end live ((env, job) ∷ jobs) = live_at_end (live_after job.id job.target_id live) jobs

-- A user whose names have at most 20 characters.
abbrev pub KnownUser : ℕ → Content → Type 0
KnownUser id c =
    (u : UserData) × (lookup id c.user_map ≡ some (some u))
    × (length u.name ≤ 40)
    × (length u.nickname ≤ 40)

-- The users are those who are connected.
pub record Agrees (live : ℕ → Bool) (c : Content) : Type 0 where
  pub valid : IsValid c
  pub known : (id : ℕ) → live id ≡ true → KnownUser id c
  pub unknown : (id : ℕ) → live id ≡ false → lookup id c.user_map ≡ none

-- A job for one session leaves that session as it should be and the others as they were.
pub kept-Agrees :
    (live live' : ℕ → Bool) (c c' : Content) (id : ℕ)
    → Agrees live c
    → IsValid c'
    → ((j : ℕ) → j ≢ id → live' j ≡ live j)
    → ((j : ℕ) → j ≢ id → lookup j c'.user_map ≡ lookup j c.user_map)
    → ((live' id ≡ true) × KnownUser id c') ⊎ ((live' id ≡ false) × (lookup id c'.user_map ≡ none))
    → Agrees live' c'
kept-Agrees live live' c c' id a v on others own = record {
  valid = v;
  known = λ j h. elim (ℕ_discrete j id) [
    | yes same ↦ elim own [
      | inl (_, k) ↦ rw same k
      | inr (off, _) ↦ absurd (false≢true (sym off ∙ ap live' (sym same) ∙ h))
    ]
    | no other ↦
        let (w, f, n, k) = a.known j (sym (on j other) ∙ h) in (w, others j other ∙ f, n, k)
  ];
  unknown = λ j h. elim (ℕ_discrete j id) [
    | yes same ↦ elim own [
      | inl (yes_live, _) ↦ absurd (false≢true (sym h ∙ ap live' same ∙ yes_live))
      | inr (_, k) ↦ ap (λ i. lookup i c'.user_map) same ∙ k
    ]
    | no other ↦ others j other ∙ a.unknown j (sym (on j other) ∙ h)
  ];
}

pub counted-Agrees :
    (live : ℕ → Bool) (c : Content) (n : ℕ) → Agrees live c → Agrees live (record c { job_tps = n })
counted-Agrees live c n a = record {
  valid = counted-IsValid a.valid n c.reported;
  known = a.known;
  unknown = a.unknown;
}
