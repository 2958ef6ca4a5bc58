-- ===== src/JobQueue/Refinement.antt =====
-- `push` and `pop` as operations on the list of the jobs that wait, by way of the queue that marks
-- its end with null.
use mathlib.Core.Path.{fun_ext, subst}
use native.Mathlib.Decide.{ℕ_discrete}
use chatting_server_single.Common.{
  ℕ, suc, ◌+◌, ◌-◌, ◌^◌, ◌<◌, ◌≡◌, ◌≢◌, ◌⊎◌, inl, inr, refl, sym, ap, ◌∙◌, arith, true, false, none,
  some, List, [], ◌∷◌, ◌++◌, ◌==◌, if◌then◌else◌, replaced, length,
}
use chatting_server_single.LockFree.{make_key, node_ptr}
use chatting_server_single.LockFree.Chain.{node_ptr-make_key, null_key, key_positive, Apart}
use chatting_server_single.SendQueue.{Queue}
use chatting_server_single.SendQueue.Invariant.{
  IsValid, values, replaced-here, replaced-there, node_ptr-small,
}
use chatting_server_single.SendQueue.Refinement.{
  at_end, next_lem, apart, some_wait, linked-IsValid, values-linked, popped-IsValid,
}
use chatting_server_single.JobQueue.{init, push, pop, append, take}

-- A node that bears the address has no next one; null is no such mark here.
abbrev pub renamed : ℕ → ℕ → ℕ
renamed this k = if k == this then 0 else if k == 0 then 2 ^ 48 else k

-- The same queue with null for the address of the queue, and without the nodes given back.
abbrev pub ended_by_null : ℕ → Queue → Queue
ended_by_null this q = record q { key = λ a. renamed this (q.key a); free = [] }

-- `ks` are the keys of the nodes behind the dummy, and the last node bears the address.
abbrev pub Holds : ℕ → Queue → List ℕ → Type 0
Holds this q ks = IsValid (ended_by_null this q) ks

module _ (this n t : ℕ) (q : Queue) (ks : List ℕ) (v : Holds this q ks) (low : this < 2 ^ 48)
    (node : (0 < n) × (n < 2 ^ 48) × Apart n (q.head ∷ ks)) (other : n ≢ this) where
  -- The node in the pool of the other queue.
  abbrev given : Queue
  given = record (ended_by_null this q) { free = n ∷ [] }

  given-IsValid : IsValid given ks
  given-IsValid = record {
    linked = v.linked;
    ended = v.ended;
    distinct = v.distinct;
    counted = v.counted;
    pool = (node.0, node.1, node.2, tt);
    separate = (tt, tt);
  }

  abbrev new_key : ℕ
  new_key = make_key n (q.pushs + 1)

  abbrev pushed : Queue
  pushed = record q {
    pushs = q.pushs + 1;
    value = replaced q.value n t;
    key = replaced (replaced q.key n this) (node_ptr q.tail) new_key;
    tail = new_key;
    size = q.size + 1;
  }

  new_key-ne : new_key ≢ this
  new_key-ne e =
      other
        (sym (node_ptr-make_key n (q.pushs + 1) node.1) ∙ ap node_ptr e ∙ node_ptr-small this low)

  new_key-positive : 0 < new_key
  new_key-positive = key_positive new_key (rw (node_ptr-make_key n (q.pushs + 1) node.1) node.0)

  renamed-end : (k : ℕ) → renamed this k ≡ 0 → k ≡ this
  renamed-end k h = ground arith

  marked : replaced q.key n this (node_ptr q.tail) ≡ this
  marked = elim (ℕ_discrete (node_ptr q.tail) n) [
    | yes same ↦ rw same (replaced-here q.key n this)
    | no apart ↦
        replaced-there q.key n this (node_ptr q.tail) apart
        ∙ renamed-end (q.key (node_ptr q.tail)) (
            sym (replaced-there given.key n 0 (node_ptr q.tail) apart)
            ∙ at_end given ks given-IsValid t n [] refl)
  ]

  found_end : (replaced q.key n this (node_ptr q.tail) == this) ≡ true
  found_end = ground (arith, marked)

  push-pushed : (fuel : ℕ) → push this (suc fuel) n t q ≡ some (pushed, q.size + 1)
  unfolding push append
  push-pushed fuel = rw found_end refl

  same_keys :
      (λ a. renamed this (pushed.key a))
      ≡ replaced (replaced given.key n 0) (node_ptr q.tail) new_key
  same_keys = fun_ext (λ a. ground (arith, new_key-ne, new_key-positive))

  pushed-Holds : Holds this pushed (ks ++ new_key ∷ [])
  pushed-Holds =
      subst (λ f. IsValid (record pushed { key = f; free = [] }) (ks ++ new_key ∷ []))
        (sym same_keys) (linked-IsValid given ks given-IsValid t n [] refl)

  values-pushed : values pushed (ks ++ new_key ∷ []) ≡ values q ks ++ t ∷ []
  values-pushed = values-linked given ks given-IsValid t n [] refl

after_null : node_ptr (2 ^ 48) ≡ 0
unfolding node_ptr
after_null = omega arith

renamed-key :
    (this k' k : ℕ) → renamed this k' ≡ k → 0 < node_ptr k → (k' ≡ k) × ((k == this) ≡ false)
renamed-key this k' k e there = ground (arith, not_null, not_2_48)
  where
    not_null : k ≢ 0
    not_null z = absurd (omega (arith, there, ap node_ptr z, null_key))

    not_2_48 : k ≢ 2 ^ 48
    not_2_48 z = absurd (omega (arith, there, ap node_ptr z ∙ after_null))

module _ (this : ℕ) (q : Queue) (k : ℕ) (ks : List ℕ) (v : Holds this q (k ∷ ks)) where
  abbrev taken : Queue
  taken = record q { size = q.size - 1; head = k; free = node_ptr q.head ∷ q.free }

  next : (q.key (node_ptr q.head) ≡ k) × ((k == this) ≡ false)
  next =
      renamed-key this (q.key (node_ptr q.head)) k (next_lem (ended_by_null this q) k ks v)
        v.linked.2.1

  pop-taken : (fuel : ℕ) → pop this (suc fuel) q ≡ some (taken, some (q.value (node_ptr k)))
  unfolding pop take
  pop-taken fuel =
      rw
        (
          some_wait (ended_by_null this q) k ks v,
          next.0,
          next.1,
          apart (ended_by_null this q) k ks v,
        )
        refl

  taken-Holds : Holds this taken ks
  taken-Holds =
      let w = popped-IsValid (ended_by_null this q) k ks v in
      record {
        linked = w.linked;
        ended = w.ended;
        distinct = w.distinct;
        counted = w.counted;
        pool = tt;
        separate = tt;
      }

-- On a queue below address 2 ^ 48 that holds some jobs, `push` with a node below 2 ^ 48 that is
-- neither null nor in the queue nor the queue itself puts the job behind those that wait, says how
-- many wait then, and its loop ends in the first round. `pop` hands over the first job, its loop
-- ends in the first round, and the old dummy goes to the pool; it hands over nothing, and changes
-- nothing, if none waits.
pub job_queue_refines :
    (this n t fuel : ℕ) (q : Queue) (ks : List ℕ)
    → this < 2 ^ 48
    → Holds this q ks
    → 0 < n
    → n < 2 ^ 48
    → Apart n (q.head ∷ ks)
    → n ≢ this
    → ((q' : Queue) × (ks' : List ℕ) × (push this (suc fuel) n t q ≡ some (q', length ks + 1))
        × Holds this q' ks'
        × (values q' ks' ≡ values q ks ++ t ∷ [])
        × (q'.free ≡ q.free))
      × (((values q ks ≡ []) × (pop this fuel q ≡ some (q, none)))
          ⊎ ((q' : Queue) × (ks' : List ℕ) × (job : ℕ) × (pop this (suc fuel) q
                ≡ some (q', some job))
              × Holds this q' ks'
              × (values q ks ≡ job ∷ values q' ks')
              × (q'.free ≡ node_ptr q.head ∷ q.free)))
unfolding pop
job_queue_refines this n t fuel q ks low v some_node small away other = (
  (
    pushed this n t q ks v low (some_node, small, away) other,
    ks ++ make_key n (q.pushs + 1) ∷ [],
    push-pushed this n t q ks v low (some_node, small, away) other fuel
        ∙ ap (λ s. some (pushed this n t q ks v low (some_node, small, away) other, s + 1))
            v.counted,
    pushed-Holds this n t q ks v low (some_node, small, away) other,
    values-pushed this n t q ks v low (some_node, small, away) other,
    refl,
  ),
  popping ks v,
)
  where
    popping :
        (ks : List ℕ)
        → Holds this q ks
        → ((values q ks ≡ []) × (pop this fuel q ≡ some (q, none)))
          ⊎ ((q' : Queue) × (ks' : List ℕ) × (job : ℕ) × (pop this (suc fuel) q
                ≡ some (q', some job))
              × Holds this q' ks'
              × (values q ks ≡ job ∷ values q' ks')
              × (q'.free ≡ node_ptr q.head ∷ q.free))
    popping [] v = inl (refl, rw v.counted refl)
    popping (k ∷ ks) v = inr (
      taken this q k ks v,
      ks,
      q.value (node_ptr k),
      pop-taken this q k ks v fuel,
      taken-Holds this q k ks v,
      refl,
      refl,
    )

-- A new queue, whose dummy is not the queue itself, holds no job.
pub new_queue-Holds :
    (this : ℕ) (key value : ℕ → ℕ) (dummy : ℕ)
    → 0 < dummy
    → dummy < 2 ^ 48
    → Holds this (init this key value dummy) []
unfolding init
new_queue-Holds this key value dummy there low = record {
  linked =
      (refl, rw (node_ptr-small dummy low) there, rw (node_ptr-small dummy low) (ground arith));
  ended = refl;
  distinct = (tt, tt);
  counted = refl;
  pool = tt;
  separate = tt;
}
