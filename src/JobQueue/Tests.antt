-- ===== src/JobQueue/Tests.antt =====
-- A queue at address 256 with one job, and the theorem about `push` and `pop` at it.
use chatting_server_single.Common.{
  ℕ, ◌+◌, ◌≡◌, ◌⊎◌, arith, replaced, ◌^◌, none, some, List, [], ◌∷◌, ◌++◌,
}
use chatting_server_single.LockFree.{node_ptr}
use chatting_server_single.SendQueue.{Queue}
use chatting_server_single.SendQueue.Invariant.{values}
use chatting_server_single.JobQueue.{push, pop}
use chatting_server_single.JobQueue.Refinement.{Holds, job_queue_refines}

abbrev first_key : ℕ
first_key = 2 ^ 48 + 8192

abbrev busy : Queue
busy = record {
  pushs = 1;
  head = 4096;
  tail = first_key;
  size = 1;
  key = replaced (λ _. 256) 4096 first_key;
  value = replaced (λ _. 0) 8192 7;
  free = [];
}

busy-Holds : Holds 256 busy (first_key ∷ [])
unfolding node_ptr
busy-Holds = ground arith

job_queue_refines_example :
    ((q' : Queue) × (ks' : List ℕ) × (push 256 2 12288 9 busy ≡ some (q', 2))
      × Holds 256 q' ks'
      × (values q' ks' ≡ values busy (first_key ∷ []) ++ 9 ∷ [])
      × (q'.free ≡ []))
    × (((values busy (first_key ∷ []) ≡ []) × (pop 256 1 busy ≡ some (busy, none)))
        ⊎ ((q' : Queue) × (ks' : List ℕ) × (job : ℕ) × (pop 256 2 busy ≡ some (q', some job))
            × Holds 256 q' ks'
            × (values busy (first_key ∷ []) ≡ job ∷ values q' ks')
            × (q'.free ≡ node_ptr 4096 ∷ [])))
unfolding node_ptr
job_queue_refines_example =
    job_queue_refines 256 12288 9 1 busy (first_key ∷ []) (omega arith) busy-Holds (omega arith)
      (omega arith) (omega arith) (omega arith)
