-- ===== src/ObjectPool/Chain.antt =====
-- The chain of a thread, and what `sub_pop` does to it.
use chatting_server_single.Common.{
  ℕ, ◌+◌, ◌-◌, ◌*◌, ◌%◌, ◌^◌, ◌≤◌, ◌<◌, ◌≡◌, refl, ap, arith, List, [], ◌∷◌, ◌++◌, length, some,
  last_of, last_of-append, le→ltb, replaced,
}
use chatting_server_single.ObjectPool.{Pool, Local, sub_pop}
use chatting_server_single.ObjectPool.Paths.{count, count-append, LeadsTo, LeadsTo-same}
use chatting_server_single.ObjectPool.Chunks.{Chunk, nodes_of, AllLinked-same, IsPool}

-- `next_tail_ptr` is the last of the nodes in front of the last `block_size` ones, if there are any.
abbrev pub Marks : ℕ → List ℕ → Type 0
Marks n [] = Unit
Marks n (f ∷ fs) = last_of f fs ≡ n

-- The nodes of a thread: some in front, and a chunk in the back.
abbrev pub chain : Local → List ℕ → List ℕ → List ℕ
chain l fs bs = (fs ++ bs) ++ l.tail_ptr ∷ []

pub record IsLocal (p : Pool) (l : Local) (fs bs : List ℕ) : Type 0 where
  pub path : LeadsTo p.next l.head_ptr (fs ++ bs) l.tail_ptr
  pub back : length bs + 1 ≡ p.block_size
  pub sized : l.cur_node_size ≡ p.block_size + length fs
  pub front : length fs ≤ p.block_size
  pub mark : Marks l.next_tail_ptr fs
  pub chunk : l.chunk_block_size ≡ p.block_size
  pub threshold : l.release_threshold ≡ 2 * p.block_size + 1

-- A step of a thread: what it owns before and after it, with the object `n` that it hands out, or
-- takes back.
pub record Popped (news : List ℕ) (p : Pool) (l : Local) (fs bs : List ℕ) (cs : List Chunk)
    (p' : Pool) (l' : Local) (fs' bs' : List ℕ) (cs' : List Chunk) (n : ℕ) (added : List ℕ)
    : Type 0 where
  pub local : IsLocal p' l' fs' bs'
  pub pool : IsPool p' cs'
  pub marked : p'.next n ≡ p.address
  pub same_address : p'.address ≡ p.address
  pub same_size : p'.block_size ≡ p.block_size
  pub elsewhere : (a : ℕ) → count a news ≡ 0 → count a (chain l fs bs) ≡ 0 → p'.next a ≡ p.next a
  pub kept :
      (a : ℕ)
      → count a (n ∷ []) + count a (chain l' fs' bs') + count a (nodes_of cs')
        ≡ count a added + count a (chain l fs bs) + count a (nodes_of cs)
  pub fresh : (a : ℕ) → count a added ≤ count a news
  pub used :
      p'.use_block_count * p.block_size + l.cur_node_size
      ≡ p.use_block_count * p.block_size + l'.cur_node_size + 1
  pub grown : p'.max_block_count ≤ p.max_block_count + 1

Marks-tail : (n f : ℕ) (fs : List ℕ) → Marks n (f ∷ fs) → Marks n fs
Marks-tail n f [] m = tt
Marks-tail n f (g ∷ fs) m = m

pub Marks-append : (n : ℕ) (fs : List ℕ) → Marks n (fs ++ n ∷ [])
Marks-append n [] = refl
Marks-append n (f ∷ fs) = last_of-append f n fs

pub count-chain :
    (a : ℕ) (l : Local) (fs bs : List ℕ)
    → count a (chain l fs bs) ≡ count a fs + count a bs + count a (l.tail_ptr ∷ [])
count-chain a l fs bs =
    omega (arith, count-append a (fs ++ bs) (l.tail_ptr ∷ []), count-append a fs bs)

-- A write outside of a path.
pub LeadsTo-write :
    (next : ℕ → ℕ) (n x p : ℕ) (ks : List ℕ) (e : ℕ)
    → count n ks ≡ 0
    → LeadsTo next p ks e
    → LeadsTo (replaced next n x) p ks e
LeadsTo-write next n x p ks e out h = LeadsTo-same next (replaced next n x) p ks e other h
  where
    other : (a : ℕ) → 0 < count a ks → replaced next n x a ≡ next a
    other a i = ground (arith, ap (λ k. count k ks))

pub self-count : (a : ℕ) → count a (a ∷ []) ≡ 1
self-count a = ground arith

module _ (news : List ℕ) (p : Pool) (l : Local) (f : ℕ) (fs bs : List ℕ) (cs : List Chunk)
    (v : IsLocal p l (f ∷ fs) bs) (w : IsPool p cs)
    (apart : (a : ℕ)
      → count a news + count a (chain l (f ∷ fs) bs) + count a (nodes_of cs) ≤ 1) where
  abbrev pub rest_pool : Pool
  rest_pool = record p { next = replaced p.next f p.address }

  abbrev pub rest_local : Local
  rest_local = record l { head_ptr = p.next f; cur_node_size = p.block_size + length fs }

  pub sub_pop-front : sub_pop news p l ≡ some (rest_pool, rest_local, f)
  unfolding sub_pop
  sub_pop-front =
      rw (v.path.0, v.chunk, left, le→ltb (p.block_size + length fs) p.block_size (omega arith))
        refl
    where
      left : (l.cur_node_size + 2 ^ 16 - 1) % 2 ^ 16 ≡ p.block_size + length fs
      left = omega (arith, v.sized, v.front, w.narrow)

  pub front-Popped : Popped news p l (f ∷ fs) bs cs rest_pool rest_local fs bs cs f []
  front-Popped = record {
    local = record {
      path =
          LeadsTo-write p.next f p.address (p.next f) (fs ++ bs) l.tail_ptr
            (omega
              (arith, apart f, self-count f, count-append f fs bs, count-chain f l (f ∷ fs) bs))
            v.path.1;
      back = v.back;
      sized = refl;
      front = omega (arith, v.front);
      mark = Marks-tail l.next_tail_ptr f fs v.mark;
      chunk = v.chunk;
      threshold = v.threshold;
    };
    pool = record {
      blocks = w.blocks;
      chunks = AllLinked-same p.next (replaced p.next f p.address) p.block_size cs other w.chunks;
      counted = w.counted;
      wide = w.wide;
      narrow = w.narrow;
    };
    marked = ground arith;
    same_address = refl;
    same_size = refl;
    elsewhere = λ a i j. ground (arith, count-chain a l (f ∷ fs) bs);
    kept = λ a. omega (arith, count-chain a l (f ∷ fs) bs, count-chain a rest_local fs bs);
    fresh = λ a. omega arith;
    used = omega (arith, v.sized);
    grown = omega arith;
  }
    where
      other : (a : ℕ) → 0 < count a (nodes_of cs) → replaced p.next f p.address a ≡ p.next a
      other a i = ground (arith, apart a, count-chain a l (f ∷ fs) bs)
