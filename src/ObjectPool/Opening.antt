-- ===== src/ObjectPool/Opening.antt =====
-- The first call of a thread, which opens its chain with a chunk of its own.
use chatting_server_single.Common.{
  ℕ, ◌+◌, ◌*◌, ◌%◌, ◌^◌, ◌≤◌, ◌<◌, ◌≡◌, refl, sym, ap, ◌∙◌, arith, List, [], ◌∷◌, ◌++◌, length,
  some, none, replaced, weight-replaced,
}
use chatting_server_single.ObjectPool.{Pool, Local, alloc_chunk, open_local}
use chatting_server_single.ObjectPool.Paths.{count, count-append}
use chatting_server_single.ObjectPool.Chunks.{Chunk, nodes_of, Granted, alloc_chunk-Granted}
use chatting_server_single.ObjectPool.Chain.{count-chain}
use chatting_server_single.ObjectPool.Ownership.{Part, count_in, size_of, Owns, others_keep}

module _ (threads : ℕ) (p : Pool) (parts : ℕ → Part) (cs : List Chunk) (out made : List ℕ)
    (v : Owns threads p parts cs out made) (i : ℕ) (here : i < threads) (mine : parts i ≡ none)
    (news : List ℕ) (fresh : (a : ℕ) → count a news + count a made ≤ 1) where
  abbrev opened : Chunk → Local
  opened c = record {
    cur_node_size = p.block_size;
    release_threshold = 2 * p.block_size + 1;
    chunk_block_size = p.block_size;
    tail_ptr = c.2;
    next_tail_ptr = 0;
    head_ptr = c.0;
  }

  open_local-opened :
      (p' : Pool) (c : Chunk)
      → alloc_chunk news p ≡ some (p', c.0, c.2)
      → open_local news p ≡ some (p', opened c)
  unfolding open_local
  open_local-opened p' c e = rw (e, size, size16, threshold) refl
    where
      size : p.block_size % 2 ^ 32 ≡ p.block_size
      size = omega (arith, v.pool.narrow)

      size16 : p.block_size % 2 ^ 16 ≡ p.block_size
      size16 = omega (arith, v.pool.narrow)

      threshold : (p.block_size * 2 + 1) % 2 ^ 32 % 2 ^ 16 ≡ 2 * p.block_size + 1
      threshold = omega (arith, v.pool.narrow)

  opened-Owns :
      (p' : Pool) (c : Chunk) (cs' : List Chunk) (added : List ℕ)
      → Granted news p cs p' c cs' added
      → Owns threads p' (replaced parts i (some (opened c, [], c.1))) cs' out (news ++ made)
  opened-Owns p' c cs' added g = record {
    pool = record {
      blocks = g.blocks;
      chunks = rw g.same_size g.chunks;
      counted = g.counted;
      wide = omega (arith, g.same_size, v.pool.wide);
      narrow = omega (arith, g.same_size, v.pool.narrow);
    };
    each =
        others_keep threads p parts cs out made v i here p' (some (opened c, [], c.1)) g.same_size
          news fresh (λ a j k m. g.elsewhere a j)
          record {
            path = g.path;
            back = omega (arith, g.full, g.same_size);
            sized = omega (arith, g.same_size);
            front = omega arith;
            mark = tt;
            chunk = sym g.same_size;
            threshold = omega (arith, g.same_size);
          };
    owned = λ a. omega (
      arith,
      ap (λ x. count a (x ∷ [])) g.same_address,
      v.owned a,
      g.kept a,
      g.fresh a,
      ap (count_in a) mine,
      count-append a news made,
      count-append a c.1 (c.2 ∷ nodes_of cs'),
      count-chain a (opened c) [] c.1,
      weight-replaced (count_in a) parts i (some (opened c, [], c.1)) threads here,
    );
    once = λ a. omega (arith, fresh a, count-append a news made);
    marks =
        λ a k. g.elsewhere a (omega (arith, fresh a, v.owned a)) ∙ v.marks a k ∙ sym g.same_address;
    total =
        ap (λ (c : ℕ). p'.use_block_count * c) g.same_size
        ∙ omega (
          arith,
          v.total,
          ap (λ (u : ℕ). u * p.block_size) g.used,
          ap size_of mine,
          weight-replaced size_of parts i (some (opened c, [], c.1)) threads here,
        );
  }

-- It succeeds, as long as `new` returns nodes, and what the other threads have stays theirs.
pub open_local-Owns :
    (threads : ℕ) (p : Pool) (parts : ℕ → Part) (cs : List Chunk) (out made : List ℕ)
    → Owns threads p parts cs out made
    → (i : ℕ) → i < threads
    → parts i ≡ none
    → (t : ℕ) (ns : List ℕ) → ((a : ℕ) → count a (t ∷ ns) + count a made ≤ 1)
    → length (t ∷ ns) ≡ p.block_size
    → p.max_block_count + 1 < 2 ^ 64
    → (p' : Pool) × (l : Local) × (bs : List ℕ) × (cs' : List Chunk) × (open_local (t ∷ ns) p
        ≡ some (p', l))
      × Owns threads p' (replaced parts i (some (l, [], bs))) cs' out ((t ∷ ns) ++ made)
      × (p'.block_size ≡ p.block_size)
      × (p'.address ≡ p.address)
      × (p'.max_block_count ≤ p.max_block_count + 1)
open_local-Owns threads p parts cs out made v i here mine t ns fresh sized few =
    let (p', c, cs', added, e, g) =
      alloc_chunk-Granted p t ns few sized cs v.pool (λ a. omega (arith, fresh a, v.owned a)) in
    (
      p',
      opened threads p parts cs out made v i here mine (t ∷ ns) fresh c,
      c.1,
      cs',
      open_local-opened threads p parts cs out made v i here mine (t ∷ ns) fresh p' c e,
      opened-Owns threads p parts cs out made v i here mine (t ∷ ns) fresh p' c cs' added g,
      g.same_size,
      g.same_address,
      g.grown,
    )
