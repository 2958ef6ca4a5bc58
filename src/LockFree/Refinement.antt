-- ===== src/LockFree/Refinement.antt =====
-- The nodes that hang together as a stack, as a list to which every access does one thing.
use chatting_server_single.Common.{
  ℕ, ◌^◌, ◌<◌, ◌≡◌, ◌≢◌, refl, sym, ap, ◌∙◌, arith, List, [], ◌∷◌, map, contains, false,
}
use chatting_server_single.LockFree.{
  node_ptr, Shared, Pc, idle, owning, linked, seen, Move, insert, remove, System, Reach,
}
use chatting_server_single.LockFree.Chain.{Chain, Apart, null_key}
use chatting_server_single.LockFree.Knowledge.{Knows, owned, owned_lem, after, rest_of}
use chatting_server_single.LockFree.Invariant.{Inv, Move-Inv, Reach-Inv, count-le}

-- Followed from the top, the nodes are these.
pub Holds : Shared → List ℕ → Type 0
Holds s nodes = (ks : List ℕ) × Chain s.next s.top_key ks × (map node_ptr ks ≡ nodes)

-- What an access does to a list of nodes, by where the thread stands before and after it: a
-- successful exchange of `push` puts its node in front, one of `pop` takes the front node over, and
-- nothing else changes the list.
abbrev pub Effect : Pc → Pc → List ℕ → List ℕ → Type 0
Effect (linked a _ _) idle nodes nodes' = nodes' ≡ a ∷ nodes
Effect (seen _ _) (owning a) nodes nodes' = nodes ≡ a ∷ nodes'
Effect _ _ nodes nodes' = nodes' ≡ nodes

front_lem :
    (s : Shared) (ks : List ℕ) (c : ℕ)
    → Chain s.next s.top_key ks
    → s.top_key ≡ c
    → 0 < node_ptr c
    → map node_ptr ks ≡ node_ptr c ∷ map node_ptr (rest_of ks)
front_lem s [] c chain top there =
    absurd (omega (arith, there, null_key, ap node_ptr (sym top ∙ chain)))
front_lem s (k ∷ ks) c chain top there = ap (λ j. node_ptr j ∷ map node_ptr ks) (sym chain.0 ∙ top)

effect_lem :
    {n : ℕ} {s s' : Shared} {pc : ℕ → Pc} {ks : List ℕ} {p p' : Pc}
    → Inv n s pc ks
    → Knows s ks p
    → (mv : Move s p s' p') → Effect p p' (map node_ptr ks) (map node_ptr (after mv ks))
effect_lem {ks} inv h (insert e) = ap (λ a. a ∷ map node_ptr ks) h.1.0
effect_lem {s} {ks} inv h (remove {c} e) = front_lem s ks c inv.chain e h.0.0
effect_lem inv h mv = refl

-- Threads push and pop on a stack that was new, whatever its count of pushes was then, interleaved
-- in any order, and have made less than 2 ^ 16 keys since. Then the nodes from the top on are a
-- list, and an access does to it what the operation says: the exchange by which `push` ends puts its node in front, the one by which `pop` ends hands over the front
-- node, and no other access, failed exchanges included, changes it.
pub access_refines :
    {n : ℕ} {s : System} {t : Shared} {p : Pc} (i : ℕ)
    → Reach n s
    → i < n
    → Move s.shared (s.pc i) t p
    → t.increments < 2 ^ 16
    → (nodes : List ℕ) × (nodes' : List ℕ) × Holds s.shared nodes
      × Holds t nodes'
      × Effect (s.pc i) p nodes nodes'
unfolding Holds
access_refines {s} i r lt mv small =
    let (ks, inv) = Reach-Inv (omega (arith, small, count-le mv)) r in
    (
      map node_ptr ks,
      map node_ptr (after mv ks),
      (ks, inv.chain, refl),
      (after mv ks, (Move-Inv inv i lt small mv).chain, refl),
      effect_lem inv (inv.knows i lt) mv,
    )

Apart-contains : (a : ℕ) (ks : List ℕ) → Apart a ks → contains a (map node_ptr ks) ≡ false
Apart-contains a [] h = refl
Apart-contains a (k ∷ ks) h = ground (arith, Apart-contains a ks h.1, h.0)

-- In every state that threads reach from a new stack, whatever its count of pushes is, by making less
-- than 2 ^ 16 keys, a node that a thread took from the
-- stack, and has not yet put back, is not in the stack, and no other thread has it.
pub owned_alone_lem :
    {n : ℕ} {s : System} (i j a : ℕ)
    → Reach n s
    → s.shared.increments < 2 ^ 16
    → i < n
    → j < n
    → i ≢ j
    → 0 < a
    → owned (s.pc i) ≡ a
    → (nodes : List ℕ) × Holds s.shared nodes × (contains a nodes ≡ false) × (owned (s.pc j) ≢ a)
unfolding Holds
owned_alone_lem {s} i j a r small lt lt' ne pos mine =
    let (ks, inv) = Reach-Inv small r in
    let here : 0 < owned (s.pc i) = rw mine pos in
    (
      map node_ptr ks,
      (ks, inv.chain, refl),
      Apart-contains a ks (rw (← mine) (owned_lem s.shared ks (s.pc i) (inv.knows i lt) here).1),
      λ theirs. inv.owners i j lt lt' ne here (mine ∙ sym theirs),
    )
