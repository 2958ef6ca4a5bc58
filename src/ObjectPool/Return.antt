-- ===== src/ObjectPool/Return.antt =====
-- What `sub_push` does to the chain of a thread.
use chatting_server_single.Common.{
  ℕ, zero, suc, ◌+◌, ◌*◌, ◌%◌, ◌^◌, ◌≤◌, ◌<◌, ◌≡◌, ◌≢◌, refl, arith, List, [], ◌∷◌, ◌++◌, length,
  some, true, false, replaced, ◌==◌, ==_iff, if◌then◌else◌,
}
use chatting_server_single.ObjectPool.{Pool, Local, sub_push}
use chatting_server_single.ObjectPool.Paths.{count, count-append, LeadsTo}
use chatting_server_single.ObjectPool.Chunks.{Chunk, nodes_of, AllLinked-same, IsPool}
use chatting_server_single.ObjectPool.Chain.{
  chain, Marks, IsLocal, count-chain, LeadsTo-write, self-count,
}

-- A thread that takes back the object `n`: what it owns before and after that.
pub record Pushed (p : Pool) (l : Local) (fs bs : List ℕ) (cs : List Chunk) (n : ℕ) (p' : Pool)
    (l' : Local) (fs' bs' : List ℕ) (cs' : List Chunk) : Type 0 where
  pub local : IsLocal p' l' fs' bs'
  pub pool : IsPool p' cs'
  pub same_address : p'.address ≡ p.address
  pub same_size : p'.block_size ≡ p.block_size
  pub same_max : p'.max_block_count ≡ p.max_block_count
  pub first : p'.next n ≡ l.head_ptr
  pub elsewhere : (a : ℕ) → count a (n ∷ []) ≡ 0 → p'.next a ≡ p.next a
  pub kept :
      (a : ℕ)
      → count a (chain l' fs' bs') + count a (nodes_of cs')
        ≡ count a (n ∷ []) + count a (chain l fs bs) + count a (nodes_of cs)
  pub used :
      p'.use_block_count * p.block_size + l.cur_node_size + 1
      ≡ p.use_block_count * p.block_size + l'.cur_node_size

pub equal_test : (a b : ℕ) → a ≡ b → (a == b) ≡ true
equal_test a b e = (==_iff a b).1 e

pub unequal_test : (a b : ℕ) → a ≢ b → (a == b) ≡ false
unequal_test a b ne = ground arith

pub used_positive : (u c m : ℕ) → m + 1 ≤ u * c → 0 < u
used_positive zero c m h = absurd (omega arith)
used_positive (suc u) c m h = omega arith

module _ (p : Pool) (l : Local) (fs bs : List ℕ) (cs : List Chunk) (n : ℕ) (v : IsLocal p l fs bs)
    (w : IsPool p cs) (marked : p.next n ≡ p.address)
    (apart : (a : ℕ) → count a (n ∷ []) + count a (chain l fs bs) + count a (nodes_of cs) ≤ 1) where
  abbrev pub back_pool : Pool
  back_pool = record p { next = replaced p.next n l.head_ptr }

  abbrev pub back_local : Local
  back_local = record l {
    next_tail_ptr = if l.cur_node_size == l.chunk_block_size then n else l.next_tail_ptr;
    head_ptr = n;
    cur_node_size = l.cur_node_size + 1;
  }

  pub no_wrap : (l.cur_node_size + 1) % 2 ^ 16 ≡ l.cur_node_size + 1
  no_wrap = omega (arith, v.sized, v.front, w.narrow)

  pub longer_path : LeadsTo back_pool.next n (n ∷ (fs ++ bs)) l.tail_ptr
  longer_path = (
    refl,
    rw here (
        LeadsTo-write p.next n l.head_ptr l.head_ptr (fs ++ bs) l.tail_ptr
          (omega (arith, apart n, count-chain n l fs bs, count-append n fs bs, self-count n))
          v.path),
  )
    where
      here : back_pool.next n ≡ l.head_ptr
      here = ground arith

  pub back-IsPool : IsPool back_pool cs
  back-IsPool = record {
    blocks = w.blocks;
    chunks = AllLinked-same p.next back_pool.next p.block_size cs other w.chunks;
    counted = w.counted;
    wide = w.wide;
    narrow = w.narrow;
  }
    where
      other : (a : ℕ) → 0 < count a (nodes_of cs) → back_pool.next a ≡ p.next a
      other a i = ground (arith, apart a)

  pub sub_push-kept : length fs < p.block_size → sub_push n p l ≡ some (back_pool, back_local)
  unfolding sub_push
  sub_push-kept room =
      rw
        (
          equal_test (p.next n) p.address marked,
          no_wrap,
          unequal_test (l.cur_node_size + 1) l.release_threshold
              (λ e. absurd (omega (arith, v.sized, v.threshold))),
        )
        refl

  kept-Marks :
      (gs : List ℕ)
      → length gs ≡ length fs
      → Marks l.next_tail_ptr gs
      → Marks back_local.next_tail_ptr (n ∷ gs)
  kept-Marks [] e m = ground (arith, v.sized, v.chunk)
  kept-Marks (g ∷ gs) e m = ground (arith, v.sized, v.chunk)

  pub kept-Pushed :
      length fs < p.block_size → Pushed p l fs bs cs n back_pool back_local (n ∷ fs) bs cs
  kept-Pushed room = record {
    local = record {
      path = longer_path;
      back = v.back;
      sized = omega (arith, v.sized);
      front = omega arith;
      mark = kept-Marks fs refl v.mark;
      chunk = v.chunk;
      threshold = v.threshold;
    };
    pool = back-IsPool;
    same_address = refl;
    same_size = refl;
    same_max = refl;
    first = ground arith;
    elsewhere = λ a i. ground arith;
    kept = λ a. omega (arith, count-chain a l fs bs, count-chain a back_local (n ∷ fs) bs);
    used = omega arith;
  }
