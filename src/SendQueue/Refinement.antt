-- ===== src/SendQueue/Refinement.antt =====
-- `push` and `pop` as operations on the list of the values that wait.
use mathlib.Core.Path.{subst}
use chatting_server_single.Common.{
  ℕ, suc, ◌+◌, ◌-◌, ◌^◌, ◌<◌, ◌≡◌, ◌⊎◌, inl, inr, refl, sym, ap, ap₂, ◌∙◌, arith, true, false, none,
  some, List, [], ◌∷◌, ◌++◌, map-append, length, length-append, last_of, last_of-append, ◌==◌,
  replaced,
}
use chatting_server_single.LockFree.{make_key, node_ptr}
use chatting_server_single.LockFree.Chain.{
  node_ptr-make_key, null_key, Chain, Apart, Fresh, Chain-write,
}
use chatting_server_single.SendQueue.{Queue, init, append, push, take, pop}
use chatting_server_single.SendQueue.Invariant.{
  AllFree, Once, IsValid, values, Apart-last_of, Distinct-append, Chain-append, AllFree-append,
  values-elsewhere, replaced-here, node_ptr-lt, AllFree-drop, Fresh-of_free, node_ptr-small,
}

-- The last node has no next one.
Chain-end :
    (next : ℕ → ℕ) (key k : ℕ) (ks : List ℕ)
    → Chain next key (k ∷ ks)
    → next (node_ptr (last_of k ks)) ≡ 0
Chain-end next key k [] h = h.2
Chain-end next key k (k' ∷ ks) h = Chain-end next (next (node_ptr k)) k' ks h.2

List-cases : (xs : List ℕ) → (xs ≡ []) ⊎ ((x : ℕ) × (rest : List ℕ) × (xs ≡ x ∷ rest))
List-cases [] = inl refl
List-cases (x ∷ xs) = inr (x, xs, refl)

module _ (q : Queue) (ks : List ℕ) (v : IsValid q ks) (t n : ℕ) (rest : List ℕ)
    (room : q.free ≡ n ∷ rest) where
  abbrev new_key : ℕ
  new_key = make_key n (q.pushs + 1)

  free_lem : AllFree (q.head ∷ ks) (n ∷ rest)
  free_lem = (rw room at v.pool)

  once_lem : Once (n ∷ rest)
  once_lem = (rw room at v.separate)

  new_ptr : node_ptr new_key ≡ n
  new_ptr = node_ptr-make_key n (q.pushs + 1) free_lem.1

  new-Apart : Apart (node_ptr new_key) (q.head ∷ ks)
  new-Apart = subst (λ a. Apart a (q.head ∷ ks)) (sym new_ptr) free_lem.2

  new-Fresh : Fresh (node_ptr new_key) rest
  new-Fresh = subst (λ a. Fresh a rest) (sym new_ptr) once_lem.0

  -- The queue after its node was prepared, and after it was linked.
  abbrev pub prepared : Queue
  prepared = record q {
    pushs = q.pushs + 1;
    free = rest;
    value = replaced q.value n t;
    key = replaced q.key n 0;
  }

  abbrev pub linked : Queue
  linked = record prepared {
    key = replaced (replaced q.key n 0) (node_ptr q.tail) new_key;
    tail = new_key;
    size = q.size + 1;
  }

  prepared-Chain : Chain prepared.key q.head (q.head ∷ ks)
  prepared-Chain = Chain-write q.key n 0 q.head (q.head ∷ ks) free_lem.2 v.linked

  pub at_end : prepared.key (node_ptr q.tail) ≡ 0
  at_end =
      ap (λ k. prepared.key (node_ptr k)) v.ended
      ∙ Chain-end prepared.key q.head q.head ks prepared-Chain

  push-linked : (fuel : ℕ) → push (suc fuel) t q ≡ some (linked, true)
  unfolding push append
  push-linked fuel = rw room (rw at_end refl)

  pub linked-IsValid : IsValid linked (ks ++ new_key ∷ [])
  linked-IsValid = record {
    linked =
        subst
          (λ k.
            Chain (replaced prepared.key (node_ptr k) new_key) q.head
              ((q.head ∷ ks) ++ new_key ∷ []))
          (sym v.ended)
          (Chain-append prepared.key q.head q.head new_key ks prepared-Chain v.distinct new-Apart
            (rw new_ptr free_lem.0) (rw new_ptr (replaced-here q.key n 0)));
    ended = sym (last_of-append q.head new_key ks);
    distinct = Distinct-append new_key (q.head ∷ ks) v.distinct new-Apart;
    counted = omega (arith, v.counted, length-append ks (new_key ∷ []));
    pool = AllFree-append new_key (q.head ∷ ks) rest free_lem.3 new-Fresh;
    separate = once_lem.1;
  }

  pub values-linked : values linked (ks ++ new_key ∷ []) ≡ values q ks ++ t ∷ []
  values-linked =
      map-append (λ k. linked.value (node_ptr k)) ks (new_key ∷ [])
      ∙ ap₂ ◌++◌ (values-elsewhere q.value n t ks free_lem.2.1) (
          ap (λ a. replaced q.value n t a ∷ []) new_ptr
          ∙ ap (λ x. x ∷ []) (replaced-here q.value n t))

send_push_lem :
    (q : Queue) (ks : List ℕ) (fuel t : ℕ)
    → IsValid q ks
    → ((q.free ≡ []) × (push fuel t q ≡ some (record q { pushs = q.pushs + 1 }, false)))
      ⊎ ((q' : Queue) × (ks' : List ℕ) × (push (suc fuel) t q ≡ some (q', true))
          × IsValid q' ks'
          × (values q' ks' ≡ values q ks ++ t ∷ [])
          × (length q'.free + 1 ≡ length q.free))
unfolding push
send_push_lem q ks fuel t v = elim (List-cases q.free) [
  | inl none_left ↦ inl (none_left, rw none_left refl)
  | inr (n, rest, room) ↦ inr (
    linked q ks v t n rest room,
    ks ++ make_key n (q.pushs + 1) ∷ [],
    push-linked q ks v t n rest room fuel,
    linked-IsValid q ks v t n rest room,
    values-linked q ks v t n rest room,
    omega (arith, ap length room),
  )
]

module _ (q : Queue) (k : ℕ) (ks : List ℕ) (v : IsValid q (k ∷ ks)) where
  abbrev pub popped : Queue
  popped = record q { size = q.size - 1; head = k; free = node_ptr q.head ∷ q.free }

  pub next_lem : q.key (node_ptr q.head) ≡ k
  next_lem = v.linked.2.0

  more : (k == 0) ≡ false
  more = ground (arith, v.linked.2.1, null_key, ap node_ptr)

  pub apart : (q.head == q.tail) ≡ false
  apart = ground (arith, v.ended, Apart-last_of (node_ptr q.head) k ks v.distinct.0, ap node_ptr)

  pub some_wait : (q.size == 0) ≡ false
  some_wait = ground (arith, v.counted)

  pop-popped : (fuel : ℕ) → pop (suc fuel) q ≡ some (popped, some (q.value (node_ptr k)))
  unfolding pop take
  pop-popped fuel = rw (some_wait, next_lem, more, apart) refl

  pub popped-IsValid : IsValid popped ks
  popped-IsValid = record {
    linked = (refl, v.linked.2.1, v.linked.2.2);
    ended = v.ended;
    distinct = v.distinct.1;
    counted = omega (arith, v.counted);
    pool =
        (v.linked.1, node_ptr-lt q.head, v.distinct.0, AllFree-drop q.head (k ∷ ks) q.free v.pool);
    separate = (Fresh-of_free q.head (k ∷ ks) q.free v.pool, v.separate);
  }

send_pop_lem :
    (q : Queue) (ks : List ℕ) (fuel : ℕ)
    → IsValid q ks
    → ((values q ks ≡ []) × (pop fuel q ≡ some (q, none)))
      ⊎ ((q' : Queue) × (ks' : List ℕ) × (t : ℕ) × (pop (suc fuel) q ≡ some (q', some t))
          × IsValid q' ks'
          × (values q ks ≡ t ∷ values q' ks')
          × (length q'.free ≡ length q.free + 1))
unfolding pop
send_pop_lem q [] fuel v = inl (refl, rw v.counted refl)
send_pop_lem q (k ∷ ks) fuel v = inr (
  popped q k ks v,
  ks,
  q.value (node_ptr k),
  pop-popped q k ks v fuel,
  popped-IsValid q k ks v,
  refl,
  omega arith,
)

-- On a valid queue with a free node `push` puts the value behind those that wait, and one round of
-- its loop is enough; without a free node it refuses, and leaves the values. `pop` hands over the
-- first of the values that wait, its loop ends in the first round, and the node is free again; it
-- hands over nothing, and changes nothing, if none waits.
pub send_queue_refines :
    (q : Queue) (ks : List ℕ) (fuel t : ℕ)
    → IsValid q ks
    → (((q.free ≡ []) × (push fuel t q ≡ some (record q { pushs = q.pushs + 1 }, false)))
        ⊎ ((q' : Queue) × (ks' : List ℕ) × (push (suc fuel) t q ≡ some (q', true))
            × IsValid q' ks'
            × (values q' ks' ≡ values q ks ++ t ∷ [])
            × (length q'.free + 1 ≡ length q.free)))
      × (((values q ks ≡ []) × (pop fuel q ≡ some (q, none)))
          ⊎ ((q' : Queue) × (ks' : List ℕ) × (t' : ℕ) × (pop (suc fuel) q ≡ some (q', some t'))
              × IsValid q' ks'
              × (values q ks ≡ t' ∷ values q' ks')
              × (length q'.free ≡ length q.free + 1)))
send_queue_refines q ks fuel t v = (send_push_lem q ks fuel t v, send_pop_lem q ks fuel v)

-- A new queue, whose pool has the dummy and the nodes of a list besides, is valid and empty.
pub new_queue-IsValid :
    (key value : ℕ → ℕ) (dummy : ℕ) (nodes : List ℕ)
    → 0 < dummy
    → dummy < 2 ^ 48
    → AllFree (dummy ∷ []) nodes
    → Once nodes
    → IsValid (init key value dummy nodes) []
unfolding init
new_queue-IsValid key value dummy nodes pos low pool once = record {
  linked = (refl, rw same pos, rw same (replaced-here key dummy 0));
  ended = refl;
  distinct = (tt, tt);
  counted = refl;
  pool = pool;
  separate = once;
}
  where
    same : node_ptr dummy ≡ dummy
    same = node_ptr-small dummy low
