-- ===== src/ObjectPool/Release.antt =====
-- `sub_push` of a thread with two chunks of nodes, one of which goes back to the pool.
use chatting_server_single.Common.{
  ℕ, ◌+◌, ◌-◌, ◌*◌, ◌%◌, ◌^◌, ◌≤◌, ◌<◌, ◌≡◌, refl, sym, ap, arith, List, [], ◌∷◌, length, some,
  last_of, replaced,
}
use chatting_server_single.ObjectPool.{Pool, Local, free_chunk, sub_push}
use chatting_server_single.ObjectPool.Paths.{
  count, count-append, LeadsTo, LeadsTo-cut, before_last, count-before_last, length-before_last,
}
use chatting_server_single.ObjectPool.Chunks.{Chunk, nodes_of, IsPool}
use chatting_server_single.ObjectPool.Chain.{chain, IsLocal, count-chain}
use chatting_server_single.ObjectPool.Return.{
  Pushed, longer_path, back-IsPool, no_wrap, equal_test, unequal_test, used_positive,
}

one_less_times : (u c : ℕ) → 0 < u → (u - 1) * c + c ≡ u * c
one_less_times u c h =
    let e : (u - 1) + 1 ≡ u = omega arith in omega (arith, ap (λ (t : ℕ). t * c) e)

module _ (p : Pool) (l : Local) (f : ℕ) (fs bs : List ℕ) (cs : List Chunk) (n : ℕ)
    (v : IsLocal p l (f ∷ fs) bs) (w : IsPool p cs) (marked : p.next n ≡ p.address)
    (apart : (a : ℕ) → count a (n ∷ []) + count a (chain l (f ∷ fs) bs) + count a (nodes_of cs) ≤ 1)
    (few : p.use_block_count < 2 ^ 64)
    (owed : l.cur_node_size + 1 ≤ p.use_block_count * p.block_size)
    (full : length (f ∷ fs) ≡ p.block_size) where
  abbrev next' : ℕ → ℕ
  next' = replaced p.next n l.head_ptr

  abbrev new_tail : ℕ
  new_tail = last_of f fs

  abbrev pub released_chunk : Chunk
  released_chunk = (next' new_tail, bs, l.tail_ptr)

  abbrev pub released_pool : Pool
  released_pool = record p {
    next = next';
    top_block = (next' new_tail, l.tail_ptr) ∷ p.top_block;
    use_block_count = p.use_block_count - 1;
  }

  abbrev pub released_local : Local
  released_local = record l {
    head_ptr = n;
    tail_ptr = new_tail;
    next_tail_ptr = n;
    cur_node_size = p.block_size + 1;
  }

  positive : 0 < p.use_block_count
  positive = used_positive p.use_block_count p.block_size l.cur_node_size owed

  pub sub_push-released : sub_push n p l ≡ some (released_pool, released_local)
  unfolding sub_push free_chunk
  sub_push-released =
      rw
        (
          equal_test (p.next n) p.address marked,
          no_wrap p l (f ∷ fs) bs cs n v w marked apart,
          equal_test (l.cur_node_size + 1) l.release_threshold
              (omega (arith, v.sized, v.threshold)),
          unequal_test l.cur_node_size l.chunk_block_size
              (λ e. absurd (omega (arith, v.sized, v.chunk, w.wide))),
          equal_test l.chunk_block_size p.block_size v.chunk,
          sym v.mark,
          one_less,
          new_size,
        )
        refl
    where
      one_less : (p.use_block_count + 2 ^ 64 - 1) % 2 ^ 64 ≡ p.use_block_count - 1
      one_less = omega (arith, positive)

      new_size : (l.cur_node_size + 1 + 2 ^ 32 - l.chunk_block_size) % 2 ^ 16 ≡ p.block_size + 1
      new_size = omega (arith, v.sized, v.chunk, w.narrow)

  cut :
      LeadsTo next' n (n ∷ before_last f fs) new_tail × LeadsTo next' (next' new_tail) bs l.tail_ptr
  cut =
      let (h, path) = longer_path p l (f ∷ fs) bs cs n v w marked apart in
      let (front, back) = LeadsTo-cut next' (next' n) f fs bs l.tail_ptr path in ((h, front), back)

  pub released-Pushed :
      Pushed p l
        (f ∷ fs)
        bs
        cs
        n
        released_pool
        released_local
        (n ∷ [])
        (before_last f fs)
        (released_chunk ∷ cs)
  released-Pushed = record {
    local = record {
      path = cut.0;
      back = omega (arith, length-before_last f fs);
      sized = omega arith;
      front = omega (arith, w.wide);
      mark = refl;
      chunk = v.chunk;
      threshold = v.threshold;
    };
    pool = record {
      blocks = ap (λ bs. (next' new_tail, l.tail_ptr) ∷ bs) w.blocks;
      chunks = (cut.1, v.back, (back-IsPool p l (f ∷ fs) bs cs n v w marked apart).chunks);
      counted = omega (arith, w.counted, positive);
      wide = w.wide;
      narrow = w.narrow;
    };
    same_address = refl;
    same_size = refl;
    same_max = refl;
    first = ground arith;
    elsewhere = λ a i. ground arith;
    kept = λ a. omega (
      arith,
      count-chain a l (f ∷ fs) bs,
      count-chain a released_local (n ∷ []) (before_last f fs),
      count-append a bs (l.tail_ptr ∷ nodes_of cs),
      count-before_last a f fs,
    );
    used = omega (arith, v.sized, one_less_times p.use_block_count p.block_size positive);
  }
