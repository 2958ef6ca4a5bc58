-- ===== src/ObjectPool/Tests.antt =====
-- A pool with chunks of two nodes, two threads, and the theorems about `Alloc` and `Free` there.
use chatting_server_single.Common.{
  ℕ, ◌≡◌, refl, arith, List, [], ◌∷◌, ◌++◌, Option, none, some, ◌>>=◌, replaced,
}
use chatting_server_single.ObjectPool.{
  Pool, Local, init, sub_pop, sub_push, alloc, free, open_local,
}
use chatting_server_single.ObjectPool.Paths.{count}
use chatting_server_single.ObjectPool.Owned.{AreNew}
use chatting_server_single.ObjectPool.Threads.{Run, alloc_lem, free_lem}

abbrev empty_pool : Pool
unfolding init
empty_pool = init 4096 2 (λ _. 7)

abbrev nobody : ℕ → Option Local
nobody i = none

-- The first call of a thread takes two chunks: one for its chain, one to fill up.
first_object :
    (alloc (10 ∷ 11 ∷ []) (12 ∷ 13 ∷ []) empty_pool none >>= λ (p, l, n).
    some (n ∷ l.head_ptr ∷ l.tail_ptr ∷ l.cur_node_size ∷ []))
    ≡ some (11 ∷ 10 ∷ 12 ∷ 3 ∷ [])
unfolding init alloc open_local sub_pop
first_object = refl

-- Three objects are taken and given back: the fifth node of the chain sends a chunk to the pool.
chunk_goes_back :
    (do
      (p1, l1, a) ← alloc (10 ∷ 11 ∷ []) (12 ∷ 13 ∷ []) empty_pool none
      (p2, l2, b) ← alloc [] [] p1 (some l1)
      (p3, l3, c) ← alloc [] (14 ∷ 15 ∷ []) p2 (some l2)
      (p4, l4) ← free [] a p3 (some l3)
      (p5, l5) ← free [] b p4 (some l4)
      some (l3.cur_node_size ∷ p3.use_block_count ∷ l5.cur_node_size ∷ p5.use_block_count ∷ []))
    ≡ some (3 ∷ 3 ∷ 3 ∷ 2 ∷ [])
unfolding init alloc open_local sub_pop free sub_push
chunk_goes_back = refl

abbrev first_nodes : List ℕ
first_nodes = 10 ∷ 11 ∷ []

abbrev more_nodes : List ℕ
more_nodes = 12 ∷ 13 ∷ []

all_new : AreNew empty_pool first_nodes more_nodes (4096 ∷ [])
unfolding init
all_new = record {
  length_news = refl;
  length_news' = refl;
  fresh = λ a. ground arith;
  few = omega arith;
}

alloc_lem_example :
    (p' : Pool) × (l' : Local) × (n : ℕ) × (alloc first_nodes more_nodes empty_pool none
      ≡ some (p', l', n))
    × (count n [] ≡ 0)
unfolding init empty_pool
alloc_lem_example =
    alloc_lem 2 4096 2 (λ _. 7) empty_pool nobody [] (4096 ∷ []) 0 first_nodes more_nodes
      (omega arith) (omega arith) (Run.start refl (λ i. refl)) (omega arith) all_new

abbrev blank : Local
blank = record {
  cur_node_size = 0;
  release_threshold = 0;
  chunk_block_size = 0;
  tail_ptr = 0;
  next_tail_ptr = 0;
  head_ptr = 0;
}

-- The state after thread 0 has taken its first object.
abbrev taken : Pool × Local × ℕ
unfolding init alloc open_local sub_pop
taken = elim (alloc first_nodes more_nodes empty_pool none) [
  | none ↦ (empty_pool, blank, 0)
  | some r ↦ r
]

abbrev later_nodes : List ℕ
later_nodes = 14 ∷ 15 ∷ []

abbrev last_nodes : List ℕ
last_nodes = 16 ∷ 17 ∷ []

-- Thread 1 gives back what thread 0 has taken.
free_lem_example :
    (p' : Pool) × (l' : Local) × (free later_nodes 11 taken.0 none ≡ some (p', l'))
    × (free later_nodes 11 p' (some l') ≡ none)
unfolding init alloc open_local sub_pop
free_lem_example =
    free_lem 2 4096 2 (λ _. 7) taken.0 (replaced nobody 0 (some taken.1)) [] []
      (more_nodes ++ (first_nodes ++ 4096 ∷ [])) 11 1 later_nodes last_nodes (omega arith)
      (omega arith)
      (Run.allocated 0 11 first_nodes more_nodes (Run.start {locals = nobody} refl (λ i. refl))
        (omega arith) all_new refl)
      (omega arith)
      record {
        length_news = refl;
        length_news' = refl;
        fresh = λ a. ground arith;
        few = omega arith;
      }
