-- ===== src/Network/Slot.antt =====
-- One slot of `sessionArray` under threads that interrupt each other: `findSession`,
-- `deleteSession` and `acceptThread` of network.cpp with `init`, `incrementIO` and `decrementIO` of
-- session.cpp, one access to shared memory at a time. A thread is also a transmission or reception
-- that is on its way, which has a reference of its own. What a caller does with a session in
-- between, the other members and the other slots are left out.
mod Invariant
pub mod Safety
mod Tests
use chatting_server_single.Common.{ℕ, ◌+◌, ◌-◌, ◌%◌, ◌^◌, ◌≤◌, ◌<◌, ◌≡◌, ◌≢◌, u32, replaced}

-- `stacked` says how often the index stands on `indexStack`; `connected` and `disconnected` count
-- the sessions that were initialised and the calls of `OnDisconnect`.
pub record Slot : Type 0 where
  pub io_count : ℕ
  pub id : ℕ
  pub stacked : ℕ
  pub connected : ℕ
  pub disconnected : ℕ

-- Where a thread stands, with the session number that it works with.
pub data Pc : Type 0 where
  idle : Pc
  -- `findSession`, before the comparison of the numbers
  found : (id : ℕ) → Pc
  -- with a reference to the session that bears the number
  holder : (id : ℕ) → Pc
  -- before `decrementIO`
  dropping : Pc
  -- in `deleteSession`, before the exchange
  zeroed : Pc
  -- after the exchange, before `indexStack.push`
  closing : Pc
  -- before `OnDisconnect`
  pushed : Pc
  -- `acceptThread` after `indexStack.pop`
  popped : Pc
  -- `init` before `incrementIO`
  named : (id : ℕ) → Pc
  -- before the mark is taken off
  counted : (id : ℕ) → Pc

-- One access of one thread. `lend` is `incrementIO` by a thread with a reference, for an operation that it
-- starts.
pub data Move (n : ℕ) (s : Slot) (pc : ℕ → Pc) : Pc → Slot → Pc → Type 0 where
  look_live :
      (id : ℕ)
      → u32 (s.io_count + 1) < 2 ^ 31
      → Move n s pc idle (record s { io_count = u32 (s.io_count + 1) }) (found id)
  look_deleted :
      2 ^ 31 ≤ u32 (s.io_count + 1)
      → Move n s pc idle (record s { io_count = u32 (s.io_count + 1) }) dropping
  same : {id : ℕ} → s.id ≡ id → Move n s pc (found id) s (holder id)
  other : {id : ℕ} → s.id ≢ id → Move n s pc (found id) s dropping
  lend :
      (j id : ℕ)
      → j < n
      → pc j ≡ holder id
      → Move n s pc idle (record s { io_count = u32 (s.io_count + 1) }) (holder id)
  finish : {id : ℕ} → Move n s pc (holder id) s dropping
  drop :
      u32 (s.io_count + 2 ^ 32 - 1) ≢ 0
      → Move n s pc dropping (record s { io_count = u32 (s.io_count + 2 ^ 32 - 1) }) idle
  drop_last :
      u32 (s.io_count + 2 ^ 32 - 1) ≡ 0
      → Move n s pc dropping (record s { io_count = u32 (s.io_count + 2 ^ 32 - 1) }) zeroed
  exchange : s.io_count ≡ 0 → Move n s pc zeroed (record s { io_count = 2 ^ 31 }) closing
  keep : s.io_count ≢ 0 → Move n s pc zeroed s idle
  push_index : Move n s pc closing (record s { stacked = s.stacked + 1 }) pushed
  disconnect : Move n s pc pushed (record s { disconnected = s.disconnected + 1 }) idle
  pop_index : 0 < s.stacked → Move n s pc idle (record s { stacked = s.stacked - 1 }) popped
  set_id : (id : ℕ) → Move n s pc popped (record s { id = id }) (named id)
  reference :
      {id : ℕ} → Move n s pc (named id) (record s { io_count = u32 (s.io_count + 1) }) (counted id)
  unmark :
      {id : ℕ}
      → Move n s pc
          (counted id)
          (record s { io_count = s.io_count % 2 ^ 31; connected = s.connected + 1 })
          (holder id)

pub record System : Type 0 where
  pub slot : Slot
  pub pc : ℕ → Pc

pub data Step (n : ℕ) (s : System) : System → Type 0 where
  run :
      (i : ℕ) {t : Slot} {p : Pc}
      → i < n
      → Move n s.slot s.pc (s.pc i) t p
      → Step n s (record { slot = t; pc = replaced s.pc i p })

-- As the constructor and `Network::start` leave a slot: no reference and no mark.
abbrev pub unused : System
unused = record {
  slot = record { io_count = 0; id = 0; stacked = 1; connected = 0; disconnected = 0 };
  pc = λ _. idle;
}

pub data Reach (n : ℕ) : System → Type 0 where
  start : Reach n unused
  later : {s t : System} → Reach n s → Step n s t → Reach n t

-- `findSession` looks a slot up no sooner than a session has begun on it, as it is with the numbers
-- that `OnNewConnect` has announced. The constructor of a slot leaves no mark, so that an earlier
-- lookup of number 0 finds it.
abbrev pub Announced :
    {n : ℕ} {s : Slot} {pc : ℕ → Pc} {p : Pc} {t : Slot} {q : Pc} → Move n s pc p t q → Type 0
Announced {s} (look_live id low) = 0 < s.connected
Announced {s} (look_deleted high) = 0 < s.connected
Announced mv = Unit

abbrev pub AllAnnounced : {n : ℕ} {s : System} → Reach n s → Type 0
AllAnnounced start = Unit
AllAnnounced (later r (run i lt mv)) = AllAnnounced r × Announced mv
