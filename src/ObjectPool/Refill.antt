-- ===== src/ObjectPool/Refill.antt =====
-- `sub_pop` of a thread that has no more than a chunk, and so gets another one.
use chatting_server_single.Common.{
  ℕ, ◌+◌, ◌-◌, ◌*◌, ◌%◌, ◌^◌, ◌≤◌, ◌<◌, ◌≡◌, refl, sym, ap, ◌∙◌, arith, List, [], ◌∷◌, ◌++◌, some,
  length-append, lt→ltb, replaced,
}
use chatting_server_single.ObjectPool.{Pool, Local, alloc_chunk, sub_pop}
use chatting_server_single.ObjectPool.Paths.{
  count, count-append, LeadsTo, LeadsTo-same, LeadsTo-append,
}
use chatting_server_single.ObjectPool.Chunks.{Chunk, nodes_of, AllLinked-same, IsPool, Granted}
use chatting_server_single.ObjectPool.Chain.{
  chain, IsLocal, Popped, Marks-append, count-chain, LeadsTo-write, self-count,
}

module _ (news : List ℕ) (p : Pool) (l : Local) (b : ℕ) (bs : List ℕ) (cs : List Chunk)
    (v : IsLocal p l [] (b ∷ bs)) (w : IsPool p cs)
    (apart : (a : ℕ) → count a news + count a (chain l [] (b ∷ bs)) + count a (nodes_of cs) ≤ 1)
    (p' : Pool) (c : Chunk) (cs' : List Chunk) (added : List ℕ)
    (g : Granted news p cs p' c cs' added) where
  abbrev pub joined : ℕ → ℕ
  joined = replaced p'.next l.tail_ptr c.0

  abbrev pub filled_pool : Pool
  filled_pool = record p' { next = replaced joined b p'.address }

  abbrev pub filled_local : Local
  filled_local = record l {
    head_ptr = p.next b;
    cur_node_size = 2 * p.block_size - 1;
    next_tail_ptr = l.tail_ptr;
    tail_ptr = c.2;
  }

  -- Where the thread's own nodes are, `news` and the chunks are not.
  owned :
      (a : ℕ)
      → count a news
          + count a (b ∷ [])
          + count a bs
          + count a (l.tail_ptr ∷ [])
          + count a (nodes_of cs)
        ≤ 1
  owned a = omega (arith, apart a, count-chain a l [] (b ∷ bs))

  granted_nodes :
      (a : ℕ)
      → count a c.1 + count a (c.2 ∷ []) + count a (nodes_of cs')
        ≡ count a added + count a (nodes_of cs)
  granted_nodes a = omega (arith, g.kept a, count-append a c.1 (c.2 ∷ nodes_of cs'))

  pub sub_pop-filled :
      alloc_chunk news p ≡ some (p', c.0, c.2)
      → sub_pop news p l ≡ some (filled_pool, filled_local, b)
  unfolding sub_pop
  sub_pop-filled e =
      rw
        (
          v.path.0,
          v.chunk,
          left,
          lt→ltb (p.block_size - 1) p.block_size (omega (arith, w.wide)),
          e,
          size,
        )
        refl
    where
      left : (l.cur_node_size + 2 ^ 16 - 1) % 2 ^ 16 ≡ p.block_size - 1
      left = omega (arith, v.sized, w.wide, w.narrow)

      size : (p.block_size - 1 + p.block_size) % 2 ^ 16 ≡ 2 * p.block_size - 1
      size = omega (arith, w.wide, w.narrow)

  -- The new chunk hangs behind the old tail.
  joined_path : LeadsTo joined (p.next b) ((bs ++ l.tail_ptr ∷ []) ++ c.1) c.2
  joined_path =
      LeadsTo-append joined (p.next b) (bs ++ l.tail_ptr ∷ []) c.0 c.1 c.2
        (LeadsTo-append joined (p.next b) bs l.tail_ptr (l.tail_ptr ∷ []) c.0 old (refl, there))
        (LeadsTo-write p'.next l.tail_ptr c.0 c.0 c.1 c.2
          (omega (
            arith,
            granted_nodes l.tail_ptr,
            owned l.tail_ptr,
            g.fresh l.tail_ptr,
            self-count l.tail_ptr,
          ))
          g.path)
    where
      there : joined l.tail_ptr ≡ c.0
      there = ground arith

      unchanged : (a : ℕ) → 0 < count a bs → joined a ≡ p.next a
      unchanged a i = ground (arith, owned a, g.elsewhere a)

      old : LeadsTo joined (p.next b) bs l.tail_ptr
      old = LeadsTo-same p.next joined (p.next b) bs l.tail_ptr unchanged v.path.1

  filled_path : LeadsTo filled_pool.next (p.next b) ((bs ++ l.tail_ptr ∷ []) ++ c.1) c.2
  filled_path =
      LeadsTo-write joined b p'.address (p.next b) ((bs ++ l.tail_ptr ∷ []) ++ c.1) c.2
        (omega (
          arith,
          count-append b (bs ++ l.tail_ptr ∷ []) c.1,
          count-append b bs (l.tail_ptr ∷ []),
          granted_nodes b,
          owned b,
          g.fresh b,
          self-count b,
        ))
        joined_path

  pub back-Popped :
      Popped news p l []
        (b ∷ bs)
        cs
        filled_pool
        filled_local
        (bs ++ l.tail_ptr ∷ [])
        c.1
        cs'
        b
        added
  back-Popped = record {
    local = record {
      path = filled_path;
      back = omega (arith, g.full, g.same_size);
      sized = omega (arith, v.back, w.wide, g.same_size, length-append bs (l.tail_ptr ∷ []));
      front = omega (arith, v.back, g.same_size, length-append bs (l.tail_ptr ∷ []));
      mark = Marks-append l.tail_ptr bs;
      chunk = v.chunk ∙ sym g.same_size;
      threshold = omega (arith, v.threshold, g.same_size);
    };
    pool = record {
      blocks = g.blocks;
      chunks =
          rw g.same_size (AllLinked-same p'.next filled_pool.next p.block_size cs' other g.chunks);
      counted = g.counted;
      wide = omega (arith, w.wide, g.same_size);
      narrow = omega (arith, w.narrow, g.same_size);
    };
    marked = ground (arith, g.same_address);
    same_address = g.same_address;
    same_size = g.same_size;
    elsewhere = λ a i j. ground (arith, g.elsewhere a, count-chain a l [] (b ∷ bs));
    kept = λ a. omega (
      arith,
      granted_nodes a,
      count-chain a l [] (b ∷ bs),
      count-chain a filled_local (bs ++ l.tail_ptr ∷ []) c.1,
      count-append a bs (l.tail_ptr ∷ []),
    );
    fresh = g.fresh;
    used = omega (arith, v.sized, w.wide, ap (λ (t : ℕ). t * p.block_size) g.used);
    grown = g.grown;
  }
    where
      other : (a : ℕ) → 0 < count a (nodes_of cs') → filled_pool.next a ≡ p'.next a
      other a i = ground (arith, owned a, granted_nodes a, g.fresh a)
