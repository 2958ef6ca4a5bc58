-- ===== src/Network/Slot/Tests.antt =====
-- One session from its acceptance to its deletion, with a lookup by a second thread in between, and
-- the theorems about a slot at it.
use chatting_server_single.Common.{ℕ, ◌^◌, ◌≤◌, ◌<◌, ◌≡◌, refl, arith}
use chatting_server_single.Network.Slot.{
  idle, holder, System, Reach, start, later, run, look_live, same, finish, drop, drop_last,
  exchange, push_index, disconnect, pop_index, set_id, reference, unmark,
}
use chatting_server_single.Network.Slot.Safety.{held_lem, at_rest_lem}

abbrev History : Type 0
History = (s : System) × Reach 2 s

-- Thread 0 accepts a connection.
abbrev accepted : History
accepted = (
  _,
  later
      (later
        (later (later start (run 0 (omega arith) (pop_index (omega arith))))
          (run 0 (omega arith) (set_id 5)))
        (run 0 (omega arith) reference))
      (run 0 (omega arith) unmark),
)

-- Thread 1 finds its session.
abbrev looked_up : History
looked_up = (
  _,
  later (later accepted.1 (run 1 (omega arith) (look_live 5 (omega arith))))
      (run 1 (omega arith) (same refl)),
)

-- Thread 0 gives its reference back, and then thread 1, which deletes the session.
abbrev left : History
left = (
  _,
  later (later looked_up.1 (run 0 (omega arith) finish)) (run 0 (omega arith) (drop (omega arith))),
)

abbrev deleted : History
deleted = (
  _,
  later
      (later
        (later
          (later (later left.1 (run 1 (omega arith) finish)) (run 1 (omega arith) (drop_last refl)))
          (run 1 (omega arith) (exchange refl)))
        (run 1 (omega arith) push_index))
      (run 1 (omega arith) disconnect),
)

held_lem_example :
    (left.0.slot.id ≡ 5)
    × (0 < left.0.slot.io_count)
    × (left.0.slot.io_count ≤ 2)
    × (left.0.slot.stacked ≡ 0)
held_lem_example = held_lem (omega arith) left.1 (omega arith) 1 5 (omega arith) refl

both_idle : (i : ℕ) → i < 2 → deleted.0.pc i ≡ idle
both_idle i lt = ground arith

at_rest_lem_example :
    (deleted.0.slot.stacked ≡ 1)
    × (deleted.0.slot.io_count ≡ 2 ^ 31)
    × (deleted.0.slot.disconnected ≡ deleted.0.slot.connected)
at_rest_lem_example = at_rest_lem (omega arith) deleted.1 (omega arith) (omega arith) both_idle

-- A lookup of number 0 before any session: the slot is found while its index is on the stack.
abbrev early : History
early = (
  _,
  later (later start (run 1 (omega arith) (look_live 0 (omega arith))))
      (run 1 (omega arith) (same refl)),
)

early_found : (early.0.pc 1 ≡ holder 0) × (early.0.slot.stacked ≡ 1)
early_found = (refl, refl)
