-- ===== src/JobQueue.antt =====
-- lockFreeJobQueue.h: the queue of the content thread. The last node bears the address of the queue,
-- not null; nodes come from a pool that all queues share, whose `Alloc` is an argument, and `free`
-- has the nodes that were given to its `Free`. Every function here is a run without interruption;
-- loops run on fuel, and are `none` where it runs out.
pub mod Refinement
mod Tests
use chatting_server_single.Common.{
  ℕ, zero, suc, ◌+◌, ◌-◌, List, [], ◌∷◌, Option, none, some, ◌>>=◌, ◌==◌, if◌then◌else◌, replaced,
}
use chatting_server_single.LockFree.{make_key, node_ptr}
use chatting_server_single.SendQueue.{Queue}

unfoldable pub init : ℕ → (ℕ → ℕ) → (ℕ → ℕ) → ℕ → Queue
init this key value dummy = record {
  pushs = 0;
  head = dummy;
  tail = dummy;
  size = 0;
  key = replaced key dummy this;
  value = value;
  free = [];
}

unfoldable pub append : ℕ → ℕ → ℕ → Queue → Option Queue
append this zero new_key q = none
append this (suc fuel) new_key q =
    let again = append this fuel new_key (record q { tail = q.key (node_ptr q.tail) }) in
    if q.key (node_ptr q.tail) == this
    then some (record q { key = replaced q.key (node_ptr q.tail) new_key; tail = new_key })
    else again

-- The new node is `n`; the result is the new size.
unfoldable pub push : ℕ → ℕ → ℕ → ℕ → Queue → Option (Queue × ℕ)
unfolding append
push this fuel n t q =
    append this fuel (make_key n (q.pushs + 1))
      (record q { pushs = q.pushs + 1; value = replaced q.value n t; key = replaced q.key n this })
    >>= λ q'. some (record q' { size = q'.size + 1 }, q'.size + 1)

unfoldable pub take : ℕ → ℕ → Queue → Option (Queue × ℕ)
take this zero q = none
take this (suc fuel) q =
    let key = q.key (node_ptr q.head) in
    let waiting = take this fuel q in
    let moved = take this fuel (record q { tail = q.key (node_ptr q.tail) }) in
    if key == this
    then waiting
    else if q.head == q.tail
    then moved
    else some (record q { head = key; free = node_ptr q.head ∷ q.free }, q.value (node_ptr key))

unfoldable pub pop : ℕ → ℕ → Queue → Option (Queue × Option ℕ)
unfolding take
pop this fuel q =
    if q.size == 0
    then some (q, none)
    else take this fuel (record q { size = q.size - 1 }) >>= (λ (q', t). some (q', some t))
