-- ===== src/LockFree.antt =====
-- lib/IOCP netServer/LockFreeStack.h: nodes that hang together by keys, under threads that
-- interrupt each other, one access to shared memory at a time. `push` and `pop` of the stack follow
-- the member `key` of the nodes, `Free` and `Alloc` of its pool the member `poolNext`; both put a
-- node that the thread owns on top, and take the top node over, in the same accesses. The values in
-- the nodes, which only the owner of a node accesses, and the counters of sizes are left out.
pub mod Chain
mod Knowledge
mod Moves
mod Invariant
pub mod Refinement
mod Tests
use chatting_server_single.Common.{
  ℕ, ◌+◌, ◌*◌, ◌%◌, ◌/◌, ◌^◌, ◌<◌, ◌≡◌, ◌≢◌, Bool, true, false, bit_or, u64, replaced,
}

-- `MAKE_KEY`, `MAKE_NODEPTR` and `getPushNo`.
unfoldable pub make_key : ℕ → ℕ → ℕ
make_key ptr push_no = bit_or ptr (u64 (push_no * 2 ^ 48))

unfoldable pub node_ptr : ℕ → ℕ
node_ptr key = key % 2 ^ 48

unfoldable pub get_push_no : ℕ → ℕ
get_push_no key = key / 2 ^ 48

-- `next` is the member that a node is linked by; `live` says which addresses `new` has handed out.
-- `pushCount` is `first_count`, which the constructors leave as it is in memory, and the
-- `increments` since, modulo 2 ^ 64.
pub record Shared : Type 0 where
  pub top_key : ℕ
  pub first_count : ℕ
  pub increments : ℕ
  pub next : ℕ → ℕ
  pub live : ℕ → Bool

-- `MAKE_KEY(n, InterlockedIncrement(&pushCount))`.
abbrev pub next_key : ℕ → Shared → ℕ
next_key a s = make_key a (u64 (s.first_count + (s.increments + 1)))

-- Where a thread stands: `a` is the node that it owns, `k` the key that it made for it, `c` its
-- `compareKey`, `x` the key that follows it.
pub data Pc : Type 0 where
  idle : Pc
  owning : (a : ℕ) → Pc
  keyed : (a k : ℕ) → Pc
  loaded : (a k c : ℕ) → Pc
  linked : (a k c : ℕ) → Pc
  free_loaded : (a c : ℕ) → Pc
  free_linked : (a c : ℕ) → Pc
  reading : (c : ℕ) → Pc
  seen : (c x : ℕ) → Pc
  faulted : Pc

-- One access. `push` of the stack makes its key first, and `retry` keeps it; `Free` of the pool
-- makes one for each attempt, after its node is linked, and `start_again` gives it up. Where there
-- is no node, `Alloc` takes one from `new`, and `pop` of the stack reads a member of null.
pub data Move (s : Shared) : Pc → Shared → Pc → Type 0 where
  allocate :
      (a : ℕ)
      → 0 < a
      → a < 2 ^ 48
      → s.live a ≡ false
      → Move s idle (record s { live = replaced s.live a true }) (owning a)
  make :
      {a : ℕ}
      → Move s (owning a) (record s { increments = s.increments + 1 }) (keyed a (next_key a s))
  load : {a k : ℕ} → Move s (keyed a k) s (loaded a k s.top_key)
  link :
      {a k c : ℕ} → Move s (loaded a k c) (record s { next = replaced s.next a c }) (linked a k c)
  insert : {a k c : ℕ} → s.top_key ≡ c → Move s (linked a k c) (record s { top_key = k }) idle
  retry : {a k c : ℕ} → s.top_key ≢ c → Move s (linked a k c) s (keyed a k)
  free_load : {a : ℕ} → Move s (owning a) s (free_loaded a s.top_key)
  free_link :
      {a c : ℕ}
      → Move s (free_loaded a c) (record s { next = replaced s.next a c }) (free_linked a c)
  free_make :
      {a c : ℕ}
      → Move s
          (free_linked a c)
          (record s { increments = s.increments + 1 })
          (linked a (next_key a s) c)
  start_again : {a k c : ℕ} → s.top_key ≢ c → Move s (linked a k c) s (owning a)
  look : 0 < node_ptr s.top_key → Move s idle s (reading s.top_key)
  look_null : node_ptr s.top_key ≡ 0 → Move s idle s faulted
  follow : {c : ℕ} → Move s (reading c) s (seen c (s.next (node_ptr c)))
  remove :
      {c x : ℕ} → s.top_key ≡ c → Move s (seen c x) (record s { top_key = x }) (owning (node_ptr c))
  miss : {c x : ℕ} → s.top_key ≢ c → Move s (seen c x) s idle

pub record System : Type 0 where
  pub shared : Shared
  pub pc : ℕ → Pc

pub data Step (n : ℕ) (s : System) : System → Type 0 where
  run :
      (i : ℕ) {t : Shared} {p : Pc}
      → i < n
      → Move s.shared (s.pc i) t p
      → Step n s (record { shared = t; pc = replaced s.pc i p })

-- A new stack or pool, with any count of pushes.
abbrev pub empty : ℕ → System
empty count = record {
  shared = record {
    top_key = 0;
    first_count = count;
    increments = 0;
    next = λ _. 0;
    live = λ _. false;
  };
  pc = λ _. idle;
}

pub data Reach (n : ℕ) : System → Type 0 where
  start : (count : ℕ) → Reach n (empty count)
  later : {s t : System} → Reach n s → Step n s t → Reach n t
