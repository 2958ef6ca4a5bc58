-- ===== src/ObjectPool/Ownership.antt =====
-- Threads with their chains over one pool: every node is in one chain or chunk, or handed out.
use chatting_server_single.Common.{
  ℕ, ◌+◌, ◌*◌, ◌≤◌, ◌<◌, ◌≡◌, ◌≢◌, sym, ap, ◌∙◌, arith, List, [], ◌∷◌, ◌++◌, length, Option, some,
  none, length-append, replaced, weight, weight-replaced, weight-ge, weight-two, replaced-cases,
}
use native.Mathlib.Decide.{ℕ_discrete}
use chatting_server_single.ObjectPool.{Pool, Local}
use chatting_server_single.ObjectPool.Paths.{count, count-append, LeadsTo-same}
use chatting_server_single.ObjectPool.Chunks.{Chunk, nodes_of, IsPool}
use chatting_server_single.ObjectPool.Chain.{chain, IsLocal, Popped, self-count}
use chatting_server_single.ObjectPool.Return.{Pushed}

-- What a thread keeps, with the nodes of its chain, if it has called the pool yet.
abbrev pub Part : Type 0
Part = Option (Local × List ℕ × List ℕ)

abbrev pub local_of : Part → Option Local
local_of none = none
local_of (some (l, fs, bs)) = some l

abbrev pub count_in : ℕ → Part → ℕ
count_in a none = 0
count_in a (some (l, fs, bs)) = count a (chain l fs bs)

abbrev pub size_of : Part → ℕ
size_of none = 0
size_of (some (l, fs, bs)) = l.cur_node_size

abbrev pub IsPart : Pool → Part → Type 0
IsPart p none = Unit
IsPart p (some (l, fs, bs)) = IsLocal p l fs bs

-- `out` are the objects handed out, `made` the pool and all the nodes that were ever made.
pub record Owns (threads : ℕ) (p : Pool) (parts : ℕ → Part) (cs : List Chunk) (out made : List ℕ)
    : Type 0 where
  pub pool : IsPool p cs
  pub each : (i : ℕ) → i < threads → IsPart p (parts i)
  pub owned :
      (a : ℕ)
      → weight (count_in a) parts threads
          + count a (nodes_of cs)
          + count a out
          + count a (p.address ∷ [])
        ≤ count a made
  pub once : (a : ℕ) → count a made ≤ 1
  pub marks : (a : ℕ) → 0 < count a out → p.next a ≡ p.address
  pub total : p.use_block_count * p.block_size ≡ weight size_of parts threads + length out

IsPart-same :
    (p p' : Pool) (x : Part)
    → p'.block_size ≡ p.block_size
    → ((a : ℕ) → 0 < count_in a x → p'.next a ≡ p.next a)
    → IsPart p x
    → IsPart p' x
IsPart-same p p' none size same h = tt
IsPart-same p p' (some (l, fs, bs)) size same h = record {
  path =
      LeadsTo-same p.next p'.next l.head_ptr (fs ++ bs) l.tail_ptr
        (λ a i. same a (omega (arith, count-append a (fs ++ bs) (l.tail_ptr ∷ [])))) h.path;
  back = rw size h.back;
  sized = rw size h.sized;
  front = rw size h.front;
  mark = h.mark;
  chunk = rw size h.chunk;
  threshold = rw size h.threshold;
}

module _ (threads : ℕ) (p : Pool) (parts : ℕ → Part) (cs : List Chunk) (out made : List ℕ)
    (v : Owns threads p parts cs out made) (i : ℕ) (here : i < threads) (p' : Pool) (y : Part)
    (size : p'.block_size ≡ p.block_size) where
  abbrev after : ℕ → Part
  after = replaced parts i y

  -- Other threads keep their chains, if nothing but nodes of this thread, new ones and objects
  -- that were handed out change.
  pub others_keep :
      (news : List ℕ)
      → ((a : ℕ) → count a news + count a made ≤ 1)
      → ((a : ℕ)
          → count a news ≡ 0
          → count_in a (parts i) ≡ 0
          → count a out ≡ 0
          → p'.next a ≡ p.next a)
      → IsPart p' y
      → (j : ℕ) → j < threads
      → IsPart p' (after j)
  others_keep news fresh same mine j inside =
      replaced-cases (IsPart p') parts i y j (λ e. mine)
        (λ ne. IsPart-same p p' (parts j) size (kept ne) (v.each j inside))
    where
      kept : j ≢ i → (a : ℕ) → 0 < count_in a (parts j) → p'.next a ≡ p.next a
      kept ne a k =
          same a (omega (arith, fresh a, v.owned a, weight-ge (count_in a) parts j threads inside))
            (omega (
              arith,
              v.owned a,
              v.once a,
              weight-two (count_in a) parts i j threads here inside (λ e. ne (sym e)),
            ))
            (omega (arith, v.owned a, v.once a, weight-ge (count_in a) parts j threads inside))

-- An object handed out by a thread.
module _ (threads : ℕ) (p : Pool) (parts : ℕ → Part) (cs : List Chunk) (out made : List ℕ)
    (v : Owns threads p parts cs out made) (i : ℕ) (here : i < threads) (l : Local) (fs bs : List ℕ)
    (mine : parts i ≡ some (l, fs, bs)) (news : List ℕ)
    (fresh : (a : ℕ) → count a news + count a made ≤ 1) where
  count-mine : (a : ℕ) → count_in a (parts i) ≡ count a (chain l fs bs)
  count-mine a = ap (count_in a) mine

  pub mine-le :
      (a : ℕ) → count a news + count a (chain l fs bs) + count a (nodes_of cs) + count a out ≤ 1
  mine-le a =
      omega (arith, fresh a, v.owned a, count-mine a, weight-ge (count_in a) parts i threads here)

  pub Popped-Owns :
      (p' : Pool) (l' : Local) (fs' bs' : List ℕ) (cs' : List Chunk) (n : ℕ) (added : List ℕ)
      → Popped news p l fs bs cs p' l' fs' bs' cs' n added
      → Owns threads p' (replaced parts i (some (l', fs', bs'))) cs' (n ∷ out) (news ++ made)
        × (count n out ≡ 0)
  Popped-Owns p' l' fs' bs' cs' n added g = (
    record {
      pool = g.pool;
      each =
          others_keep threads p parts cs out made v i here p' (some (l', fs', bs')) g.same_size news
            fresh (λ a j k m. g.elsewhere a j (sym (count-mine a) ∙ k)) g.local;
      owned = λ a. omega (
        arith,
        ap (λ x. count a (x ∷ [])) g.same_address,
        v.owned a,
        g.kept a,
        g.fresh a,
        count-append a news made,
        count-mine a,
        weight-replaced (count_in a) parts i (some (l', fs', bs')) threads here,
      );
      once = λ a. omega (arith, fresh a, count-append a news made);
      marks = marks;
      total =
          ap (λ (c : ℕ). p'.use_block_count * c) g.same_size
          ∙ omega (
            arith,
            v.total,
            g.used,
            ap size_of mine,
            weight-replaced size_of parts i (some (l', fs', bs')) threads here,
          );
    },
    omega (arith, g.kept n, g.fresh n, mine-le n, self-count n),
  )
    where
      old : (a : ℕ) → 0 < count a out → p'.next a ≡ p'.address
      old a k =
          g.elsewhere a (omega (arith, mine-le a)) (omega (arith, mine-le a))
          ∙ v.marks a k
          ∙ sym g.same_address

      marks : (a : ℕ) → 0 < count a (n ∷ out) → p'.next a ≡ p'.address
      marks a k = elim (ℕ_discrete n a) [
        | yes e ↦ ap p'.next (sym e) ∙ g.marked ∙ sym g.same_address
        | no ne ↦ old a (ground arith)
      ]

-- An object given back by a thread.
module _ (threads : ℕ) (p : Pool) (parts : ℕ → Part) (cs : List Chunk) (before after made : List ℕ)
    (n : ℕ) (v : Owns threads p parts cs (before ++ n ∷ after) made) (i : ℕ) (here : i < threads)
    (l : Local) (fs bs : List ℕ) (mine : parts i ≡ some (l, fs, bs)) where
  out_parts : (a : ℕ) → count a (before ++ n ∷ after) ≡ count a (before ++ after) + count a (n ∷ [])
  out_parts a = omega (arith, count-append a before (n ∷ after), count-append a before after)

  pub ours-le :
      (a : ℕ)
      → count a (n ∷ [])
          + count a (chain l fs bs)
          + count a (nodes_of cs)
          + count a (before ++ after)
        ≤ 1
  ours-le a = omega (
    arith,
    v.once a,
    v.owned a,
    out_parts a,
    ap (count_in a) mine,
    weight-ge (count_in a) parts i threads here,
  )

  pub Pushed-Owns :
      (p' : Pool) (l' : Local) (fs' bs' : List ℕ) (cs' : List Chunk)
      → Pushed p l fs bs cs n p' l' fs' bs' cs'
      → Owns threads p' (replaced parts i (some (l', fs', bs'))) cs' (before ++ after) made
  Pushed-Owns p' l' fs' bs' cs' g = record {
    pool = g.pool;
    each =
        others_keep threads p parts cs (before ++ n ∷ after) made v i here p' (some (l', fs', bs'))
          g.same_size [] (λ a. omega (arith, v.once a))
          (λ a j k m. g.elsewhere a (omega (arith, m, out_parts a))) g.local;
    owned = λ a. omega (
      arith,
      ap (λ x. count a (x ∷ [])) g.same_address,
      v.owned a,
      g.kept a,
      out_parts a,
      ap (count_in a) mine,
      weight-replaced (count_in a) parts i (some (l', fs', bs')) threads here,
    );
    once = v.once;
    marks = λ a k.
        g.elsewhere a (omega (arith, ours-le a))
        ∙ v.marks a (omega (arith, out_parts a))
        ∙ sym g.same_address;
    total =
        ap (λ (c : ℕ). p'.use_block_count * c) g.same_size
        ∙ omega (
          arith,
          v.total,
          g.used,
          ap size_of mine,
          length-append before (n ∷ after),
          length-append before after,
          weight-replaced size_of parts i (some (l', fs', bs')) threads here,
        );
  }
