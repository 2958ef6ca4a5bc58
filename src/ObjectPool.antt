-- ===== src/ObjectPool.antt =====
-- lib/objectPool/objectPool.h and chunkBlock.h: objects handed out from a chain of nodes that each
-- thread keeps; chains are filled from chunks of the pool, and whole chunks go back. An object is
-- known by its node, whose member `next` holds the address of the pool while it is handed out. Each
-- function is a run without interruption, so the stack of chunks is a list; `none` is a fault.
mod Calls
mod Chain
mod Chunks
mod Opening
mod Owned
mod Ownership
mod Paths
mod Refill
mod Release
mod Return
pub mod Threads
mod Tests
mod Turns
use chatting_server_single.Common.{
  ℕ, ◌+◌, ◌-◌, ◌*◌, ◌%◌, ◌^◌, List, [], ◌∷◌, Option, none, some, ◌>>=◌, leb, ltb, ◌==◌, not,
  if◌then◌else◌, u64, u32, replaced,
}

-- `top_block` holds the head and the tail of each chunk, `next` that member of the nodes.
pub record Pool : Type 0 where
  pub address : ℕ
  pub max_block_count : ℕ
  pub use_block_count : ℕ
  pub block_size : ℕ
  pub top_block : List (ℕ × ℕ)
  pub next : ℕ → ℕ

-- What a thread keeps.
pub record Local : Type 0 where
  pub cur_node_size : ℕ
  pub release_threshold : ℕ
  pub chunk_block_size : ℕ
  pub tail_ptr : ℕ
  pub next_tail_ptr : ℕ
  pub head_ptr : ℕ

abbrev u16 : ℕ → ℕ
u16 n = n % 2 ^ 16

-- `ObjectPool()` has chunks of 100 nodes, `ObjectPool(0, n)` of `n`.
unfoldable pub init : ℕ → ℕ → (ℕ → ℕ) → Pool
init address chunk_block_size next = record {
  address = address;
  max_block_count = 0;
  use_block_count = 0;
  block_size = chunk_block_size;
  top_block = [];
  next = next;
}

-- The loop of `reAlloc`: each new node is put before `head`.
unfoldable pub link : ℕ → List ℕ → (ℕ → ℕ) → ℕ × (ℕ → ℕ)
link head [] next = (head, next)
link head (n ∷ ns) next = link n ns (replaced next n head)

-- `news` are the nodes that `new` returns, one after the other.
unfoldable pub new_chunk_block : List ℕ → Pool → Option (Pool × ℕ × ℕ)
unfolding link
new_chunk_block [] p = none
new_chunk_block (t ∷ ns) p = some (
  record p { max_block_count = u64 (p.max_block_count + 1); next = (link t ns p.next).1 },
  (link t ns p.next).0,
  t,
)

unfoldable pub pop_block : List (ℕ × ℕ) → Pool → Option (Pool × ℕ × ℕ)
pop_block [] p = none
pop_block ((h, t) ∷ blocks) p = some (record p { top_block = blocks }, h, t)

-- The head and the tail of a chunk, a new one if there are too few.
unfoldable pub alloc_chunk : List ℕ → Pool → Option (Pool × ℕ × ℕ)
unfolding new_chunk_block pop_block
alloc_chunk news p =
    let p' = record p { use_block_count = u64 (p.use_block_count + 1) } in
    if leb p.max_block_count p'.use_block_count
    then new_chunk_block news p'
    else pop_block p.top_block p'

-- A part of a chunk would go through `recycleChunk`, which is never set.
unfoldable pub free_chunk : ℕ → ℕ → ℕ → Pool → Option Pool
free_chunk head tail size p =
    if size == p.block_size
    then some (record p {
      top_block = (head, tail) ∷ p.top_block;
      use_block_count = u64 (p.use_block_count + 2 ^ 64 - 1);
    })
    else none

-- The constructor of what a thread keeps.
unfoldable pub open_local : List ℕ → Pool → Option (Pool × Local)
unfolding alloc_chunk
open_local news p = alloc_chunk news p >>= (λ (p', h, t). some (
  p',
  record {
    cur_node_size = u16 (u32 p.block_size);
    release_threshold = u16 (u32 (u32 p.block_size * 2 + 1));
    chunk_block_size = u32 p.block_size;
    tail_ptr = t;
    next_tail_ptr = 0;
    head_ptr = h;
  },
))

abbrev hand_out : ℕ → Pool → Pool
hand_out n p = record p { next = replaced p.next n p.address }

unfoldable pub sub_pop : List ℕ → Pool → Local → Option (Pool × Local × ℕ)
unfolding alloc_chunk
sub_pop news p l =
    let n = l.head_ptr in
    let left = u16 (l.cur_node_size + 2 ^ 16 - 1) in
    if ltb left l.chunk_block_size
    then alloc_chunk news p >>= (λ (p', h, t). some (
      hand_out n (record p' { next = replaced p'.next l.tail_ptr h }),
      record l {
        head_ptr = p.next n;
        cur_node_size = u16 (left + l.chunk_block_size);
        next_tail_ptr = l.tail_ptr;
        tail_ptr = t;
      },
      n,
    ))
    else some (hand_out n p, record l { head_ptr = p.next n; cur_node_size = left }, n)

-- An object that is not marked as handed out is a fault.
unfoldable pub sub_push : ℕ → Pool → Local → Option (Pool × Local)
unfolding free_chunk
sub_push n p l =
    let p' = record p { next = replaced p.next n l.head_ptr } in
    let l' = record l {
      next_tail_ptr = if l.cur_node_size == l.chunk_block_size then n else l.next_tail_ptr;
      head_ptr = n;
      cur_node_size = u16 (l.cur_node_size + 1);
    } in
    if not (p.next n == p.address)
    then none
    else if l'.cur_node_size == l.release_threshold
    then (free_chunk (p'.next l'.next_tail_ptr) l.tail_ptr l.chunk_block_size p' >>= (λ p''. some (
      p'',
      record l' {
        tail_ptr = l'.next_tail_ptr;
        next_tail_ptr = n;
        cur_node_size = u16 (l'.cur_node_size + 2 ^ 32 - l.chunk_block_size);
      },
    )))
    else some (p', l')

-- `Alloc` and `Free` of a thread, which opens its chain with the first call.
unfoldable pub alloc : List ℕ → List ℕ → Pool → Option Local → Option (Pool × Local × ℕ)
unfolding open_local sub_pop
alloc news news' p none = open_local news p >>= (λ (p', l). sub_pop news' p' l)
alloc news news' p (some l) = sub_pop news' p l

unfoldable pub free : List ℕ → ℕ → Pool → Option Local → Option (Pool × Local)
unfolding open_local sub_push
free news n p none = open_local news p >>= (λ (p', l). sub_push n p' l)
free news n p (some l) = sub_push n p l
