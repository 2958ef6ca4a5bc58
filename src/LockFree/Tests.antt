-- ===== src/LockFree/Tests.antt =====
-- Thread 0 pushes a node; both threads then read the top and go after it. The theorems at this run.
use chatting_server_single.Common.{ℕ, ◌^◌, ◌≡◌, ◌≢◌, refl, arith, List, contains, false, ◌+◌}
use chatting_server_single.LockFree.{
  make_key, node_ptr, System, Reach, start, later, run, allocate, make, load, link, insert, look,
  follow, remove,
}
use chatting_server_single.LockFree.Knowledge.{owned}
use chatting_server_single.LockFree.Refinement.{Holds, Effect, access_refines, owned_alone_lem}

abbrev History : Type 0
History = (s : System) × Reach 2 s

-- Thread 0 has linked node 4096.
abbrev prepared : History
prepared = (
  _,
  later
      (later
        (later
          (later (start 65535)
            (run 0 (omega arith) (allocate 4096 (omega arith) (omega arith) refl)))
          (run 0 (omega arith) make))
        (run 0 (omega arith) load))
      (run 0 (omega arith) link),
)

abbrev both_seen : History
unfolding make_key node_ptr
both_seen = (
  _,
  later
      (later
        (later
          (later (later prepared.1 (run 0 (omega arith) (insert refl)))
            (run 1 (omega arith) (look (omega arith))))
          (run 0 (omega arith) (look (omega arith))))
        (run 1 (omega arith) follow))
      (run 0 (omega arith) follow),
)

-- Thread 0 has the node; the exchange of thread 1 is going to fail.
abbrev popped : History
unfolding make_key node_ptr
popped = (_, later both_seen.1 (run 0 (omega arith) (remove refl)))

access_refines_example :
    (nodes : List ℕ) × (nodes' : List ℕ) × Holds both_seen.0.shared nodes
    × Holds (popped.0.shared) nodes'
    × Effect (both_seen.0.pc 0) (popped.0.pc 0) nodes nodes'
unfolding make_key node_ptr
access_refines_example = access_refines 0 both_seen.1 (omega arith) (remove refl) (omega arith)

owned_alone_lem_example :
    (nodes : List ℕ) × Holds popped.0.shared nodes
    × (contains 4096 nodes ≡ false)
    × (owned (popped.0.pc 1) ≢ 4096)
unfolding make_key node_ptr
owned_alone_lem_example =
    owned_alone_lem 0 1 4096 popped.1 (omega arith) (omega arith) (omega arith) (omega arith)
      (omega arith) refl

-- The number in a key has 16 bits.
key_again : make_key 4096 (2 ^ 16 + 1) ≡ make_key 4096 1
unfolding make_key
key_again = refl
