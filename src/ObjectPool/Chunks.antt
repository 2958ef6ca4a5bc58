-- ===== src/ObjectPool/Chunks.antt =====
-- The chunks of the pool, and what `alloc_chunk` and `free_chunk` do to them.
use chatting_server_single.Common.{
  ℕ, ◌+◌, ◌%◌, ◌^◌, ◌≤◌, ◌<◌, ◌≡◌, inl, inr, refl, arith, List, [], ◌∷◌, ◌++◌, length, some, leb,
  Bool-cases, true, false,
}
use chatting_server_single.ObjectPool.{Pool, link, new_chunk_block, pop_block, alloc_chunk}
use chatting_server_single.ObjectPool.Paths.{
  count, count-append, LeadsTo, LeadsTo-same, linked, count-linked, length-linked, link-elsewhere,
  link-LeadsTo,
}

-- A chunk as it stands in memory: its head, the nodes before its tail, and its tail.
abbrev pub Chunk : Type 0
Chunk = ℕ × List ℕ × ℕ

abbrev pub nodes_of : List Chunk → List ℕ
nodes_of [] = []
nodes_of ((h, ks, t) ∷ cs) = ks ++ t ∷ nodes_of cs

abbrev pub ends_of : List Chunk → List (ℕ × ℕ)
ends_of [] = []
ends_of ((h, ks, t) ∷ cs) = (h, t) ∷ ends_of cs

-- Each is a way of `n` nodes.
abbrev pub AllLinked : (ℕ → ℕ) → ℕ → List Chunk → Type 0
AllLinked next n [] = Unit
AllLinked next n ((h, ks, t) ∷ cs) = LeadsTo next h ks t × (length ks + 1 ≡ n) × AllLinked next n cs

pub record IsPool (p : Pool) (cs : List Chunk) : Type 0 where
  pub blocks : p.top_block ≡ ends_of cs
  pub chunks : AllLinked p.next p.block_size cs
  pub counted : p.max_block_count ≡ p.use_block_count + length cs
  pub wide : 2 ≤ p.block_size
  pub narrow : p.block_size < 2 ^ 15

pub AllLinked-same :
    (next next' : ℕ → ℕ) (n : ℕ) (cs : List Chunk)
    → ((a : ℕ) → 0 < count a (nodes_of cs) → next' a ≡ next a)
    → AllLinked next n cs
    → AllLinked next' n cs
AllLinked-same next next' n [] same h = h
AllLinked-same next next' n ((p, ks, t) ∷ cs) same (path, long, rest) = (
  LeadsTo-same next next' p ks t
      (λ a i. same a (omega (arith, count-append a ks (t ∷ nodes_of cs)))) path,
  long,
  AllLinked-same next next' n cs
      (λ a i. same a (omega (arith, count-append a ks (t ∷ nodes_of cs)))) rest,
)

-- What a thread gets: a chunk of its own, with the chunks that are left. `added` are new nodes.
pub record Granted (news : List ℕ) (p : Pool) (cs : List Chunk) (p' : Pool) (c : Chunk)
    (cs' : List Chunk) (added : List ℕ) : Type 0 where
  pub path : LeadsTo p'.next c.0 c.1 c.2
  pub full : length c.1 + 1 ≡ p.block_size
  pub blocks : p'.top_block ≡ ends_of cs'
  pub chunks : AllLinked p'.next p.block_size cs'
  pub counted : p'.max_block_count ≡ p'.use_block_count + length cs'
  pub used : p'.use_block_count ≡ p.use_block_count + 1
  pub grown : p'.max_block_count ≤ p.max_block_count + 1
  pub same_size : p'.block_size ≡ p.block_size
  pub same_address : p'.address ≡ p.address
  pub elsewhere : (a : ℕ) → count a news ≡ 0 → p'.next a ≡ p.next a
  pub kept : (a : ℕ) → count a (c.1 ++ c.2 ∷ nodes_of cs') ≡ count a added + count a (nodes_of cs)
  pub fresh : (a : ℕ) → count a added ≤ count a news

abbrev grown_pool : Pool → ℕ → List ℕ → Pool
unfolding link
grown_pool p t ns = record p {
  use_block_count = p.use_block_count + 1;
  max_block_count = p.max_block_count + 1;
  next = (link t ns p.next).1;
}

abbrev new_chunk : Pool → ℕ → List ℕ → Chunk
unfolding link
new_chunk p t ns = ((link t ns p.next).0, linked ns [], t)

module _ (p : Pool) (t : ℕ) (ns : List ℕ) (cs : List Chunk) (v : IsPool p cs)
    (sized : length (t ∷ ns) ≡ p.block_size)
    (apart : (a : ℕ) → count a (t ∷ ns) + count a (nodes_of cs) ≤ 1) where
  new_chunk-Granted : Granted (t ∷ ns) p cs (grown_pool p t ns) (new_chunk p t ns) cs (t ∷ ns)
  unfolding link
  new_chunk-Granted = record {
    path = link-LeadsTo t ns p.next [] t (λ a. omega (arith, apart a)) refl;
    full = omega (arith, length-linked ns [], sized);
    blocks = v.blocks;
    chunks =
        AllLinked-same p.next (link t ns p.next).1 p.block_size cs
          (λ a i. link-elsewhere a t ns p.next (omega (arith, apart a))) v.chunks;
    counted = omega (arith, v.counted);
    used = refl;
    grown = omega arith;
    same_size = refl;
    same_address = refl;
    elsewhere = λ a i. link-elsewhere a t ns p.next (omega arith);
    kept =
        λ a. omega (arith, count-append a (linked ns []) (t ∷ nodes_of cs), count-linked a ns []);
    fresh = λ a. omega arith;
  }

abbrev taken_pool : Pool → List (ℕ × ℕ) → Pool
taken_pool p blocks = record p { use_block_count = p.use_block_count + 1; top_block = blocks }

popped-Granted :
    (p : Pool) (news : List ℕ) (c : Chunk) (cs : List Chunk)
    → IsPool p (c ∷ cs)
    → Granted news p (c ∷ cs) (taken_pool p (ends_of cs)) c cs []
popped-Granted p news c cs v = record {
  path = v.chunks.0;
  full = v.chunks.1;
  blocks = refl;
  chunks = v.chunks.2;
  counted = omega (arith, v.counted);
  used = refl;
  grown = omega arith;
  same_size = refl;
  same_address = refl;
  elsewhere = λ a i. refl;
  kept = λ a. omega arith;
  fresh = λ a. omega arith;
}

-- A chunk is had always, as long as `new` returns nodes; the top of the stack is never missing.
module _ (p : Pool) (t : ℕ) (ns : List ℕ) (few : p.max_block_count + 1 < 2 ^ 64)
    (sized : length (t ∷ ns) ≡ p.block_size) where
  alloc_chunk-new :
      (cs : List Chunk)
      → IsPool p cs
      → leb p.max_block_count (p.use_block_count + 1) ≡ true
      → alloc_chunk (t ∷ ns) p ≡ some (grown_pool p t ns, (new_chunk p t ns).0, t)
  unfolding alloc_chunk new_chunk_block
  alloc_chunk-new cs v e = rw (no_wrap, e, wraps_not) refl
    where
      no_wrap : (p.use_block_count + 1) % 2 ^ 64 ≡ p.use_block_count + 1
      no_wrap = omega (arith, v.counted)

      wraps_not : (p.max_block_count + 1) % 2 ^ 64 ≡ p.max_block_count + 1
      wraps_not = omega arith

  alloc_chunk-taken :
      (c : Chunk) (cs : List Chunk)
      → IsPool p (c ∷ cs)
      → leb p.max_block_count (p.use_block_count + 1) ≡ false
      → alloc_chunk (t ∷ ns) p ≡ some (taken_pool p (ends_of cs), c.0, c.2)
  unfolding alloc_chunk pop_block
  alloc_chunk-taken c cs v e = rw (no_wrap, e, v.blocks) refl
    where
      no_wrap : (p.use_block_count + 1) % 2 ^ 64 ≡ p.use_block_count + 1
      no_wrap = omega (arith, v.counted)

  pub alloc_chunk-Granted :
      (cs : List Chunk)
      → IsPool p cs
      → ((a : ℕ) → count a (t ∷ ns) + count a (nodes_of cs) ≤ 1)
      → (p' : Pool) × (c : Chunk) × (cs' : List Chunk) × (added : List ℕ) × (alloc_chunk (t ∷ ns) p
          ≡ some (p', c.0, c.2))
        × Granted (t ∷ ns) p cs p' c cs' added
  unfolding new_chunk
  alloc_chunk-Granted cs v apart =
      elim (Bool-cases (leb p.max_block_count (p.use_block_count + 1))) [
        | inl more ↦ (
          grown_pool p t ns,
          new_chunk p t ns,
          cs,
          t ∷ ns,
          alloc_chunk-new cs v more,
          new_chunk-Granted p t ns cs v sized apart,
        )
        | inr enough ↦ from_stack cs v enough
      ]
    where
      from_stack :
          (cs : List Chunk)
          → IsPool p cs
          → leb p.max_block_count (p.use_block_count + 1) ≡ false
          → (p' : Pool) × (c : Chunk) × (cs' : List Chunk) × (added : List ℕ) × (alloc_chunk
                (t ∷ ns)
                p
              ≡ some (p', c.0, c.2))
            × Granted (t ∷ ns) p cs p' c cs' added
      from_stack [] v e = absurd (ground (arith, v.counted))
      from_stack (c ∷ cs) v e = (
        taken_pool p (ends_of cs),
        c,
        cs,
        [],
        alloc_chunk-taken c cs v e,
        popped-Granted p (t ∷ ns) c cs v,
      )
