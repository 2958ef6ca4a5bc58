-- ===== src/SendQueue/Tests.antt =====
-- A queue with three nodes, and the theorems about `push` and `pop` at it.
use chatting_server_single.Common.{
  ℕ, ◌+◌, ◌≡◌, ◌⊎◌, refl, arith, true, false, replaced, ◌^◌, none, some, List, [], ◌∷◌, ◌++◌,
  length,
}
use chatting_server_single.LockFree.{node_ptr}
use chatting_server_single.SendQueue.{Queue, init, push, pop}
use chatting_server_single.SendQueue.Invariant.{IsValid, values}
use chatting_server_single.SendQueue.Refinement.{send_queue_refines, new_queue-IsValid}

abbrev fresh : Queue
unfolding init
fresh = init (λ _. 0) (λ _. 0) 4096 (8192 ∷ 12288 ∷ [])

fresh-IsValid : IsValid fresh []
unfolding init node_ptr
fresh-IsValid =
    new_queue-IsValid (λ _. 0) (λ _. 0) 4096 (8192 ∷ 12288 ∷ []) (omega arith) (omega arith)
      (omega arith) (omega arith)

abbrev first_key : ℕ
first_key = 2 ^ 48 + 8192

-- One value waits.
abbrev busy : Queue
busy = record {
  pushs = 1;
  head = 4096;
  tail = first_key;
  size = 1;
  key = replaced (λ _. 0) 4096 first_key;
  value = replaced (λ _. 0) 8192 7;
  free = 12288 ∷ [];
}

busy-IsValid : IsValid busy (first_key ∷ [])
unfolding node_ptr
busy-IsValid = omega arith

send_queue_refines_example :
    (((busy.free ≡ []) × (push 1 9 busy ≡ some (record busy { pushs = 2 }, false)))
      ⊎ ((q' : Queue) × (ks' : List ℕ) × (push 2 9 busy ≡ some (q', true))
          × IsValid q' ks'
          × (values q' ks' ≡ values busy (first_key ∷ []) ++ 9 ∷ [])
          × (length q'.free + 1 ≡ length busy.free)))
    × (((values busy (first_key ∷ []) ≡ []) × (pop 1 busy ≡ some (busy, none)))
        ⊎ ((q' : Queue) × (ks' : List ℕ) × (t' : ℕ) × (pop 2 busy ≡ some (q', some t'))
            × IsValid q' ks'
            × (values busy (first_key ∷ []) ≡ t' ∷ values q' ks')
            × (length q'.free ≡ length busy.free + 1)))
send_queue_refines_example = send_queue_refines busy (first_key ∷ []) 1 9 busy-IsValid

waiting : values busy (first_key ∷ []) ≡ 7 ∷ []
unfolding node_ptr
waiting = refl
