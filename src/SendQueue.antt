-- ===== src/SendQueue.antt =====
-- lib/IOCP netServer/LockFreeQueue.h: the queue of packets under a session, with a pool of as many
-- nodes as its constructor is asked for. Every function here is a run without interruption; the
-- pool is the list of its free nodes. Loops run on fuel, and are `none` where it runs out.
pub mod Invariant
pub mod Refinement
mod Tests
use chatting_server_single.Common.{
  ℕ, zero, suc, ◌+◌, ◌-◌, List, [], ◌∷◌, Option, none, some, ◌>>=◌, Bool, true, false, ◌==◌,
  if◌then◌else◌, replaced,
}
use chatting_server_single.LockFree.{make_key, node_ptr}

-- `key` and `value` are the members of the nodes by address; `free` is what `np` holds.
pub record Queue : Type 0 where
  pub pushs : ℕ
  pub head : ℕ
  pub tail : ℕ
  pub size : ℕ
  pub key : ℕ → ℕ
  pub value : ℕ → ℕ
  pub free : List ℕ

-- The constructor, with the first of the pool's nodes for a dummy.
unfoldable pub init : (ℕ → ℕ) → (ℕ → ℕ) → ℕ → List ℕ → Queue
init key value dummy nodes = record {
  pushs = 0;
  head = dummy;
  tail = dummy;
  size = 0;
  key = replaced key dummy 0;
  value = value;
  free = nodes;
}

-- The loop of `push`: the node with key `new_key` goes behind the tail, once the tail is the end.
unfoldable pub append : ℕ → ℕ → Queue → Option Queue
append zero new_key q = none
append (suc fuel) new_key q =
    let again = append fuel new_key (record q { tail = q.key (node_ptr q.tail) }) in
    if q.key (node_ptr q.tail) == 0
    then some (record q { key = replaced q.key (node_ptr q.tail) new_key; tail = new_key })
    else again

unfoldable pub push : ℕ → ℕ → Queue → Option (Queue × Bool)
unfolding append
push fuel t q = elim q.free [
  | [] ↦ some (record q { pushs = q.pushs + 1 }, false)
  | n ∷ rest ↦
      append fuel (make_key n (q.pushs + 1)) (record q {
        pushs = q.pushs + 1;
        free = rest;
        value = replaced q.value n t;
        key = replaced q.key n 0;
      })
      >>= λ q'. some (record q' { size = q'.size + 1 }, true)
]

-- The loop of `pop`: the dummy goes back to the pool and the next node is the dummy. While there is
-- no next node the loop turns round.
unfoldable pub take : ℕ → Queue → Option (Queue × ℕ)
take zero q = none
take (suc fuel) q =
    let key = q.key (node_ptr q.head) in
    let waiting = take fuel q in
    let moved = take fuel (record q { tail = q.key (node_ptr q.tail) }) in
    if key == 0
    then waiting
    else if q.head == q.tail
    then moved
    else some (record q { head = key; free = node_ptr q.head ∷ q.free }, q.value (node_ptr key))

unfoldable pub pop : ℕ → Queue → Option (Queue × Option ℕ)
unfolding take
pop fuel q =
    if q.size == 0
    then some (q, none)
    else take fuel (record q { size = q.size - 1 }) >>= (λ (q', t). some (q', some t))
