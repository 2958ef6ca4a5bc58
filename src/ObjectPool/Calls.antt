-- ===== src/ObjectPool/Calls.antt =====
-- `sub_pop` and `sub_push` of a thread among others.
use chatting_server_single.Common.{
  ℕ, ◌+◌, ◌*◌, ◌^◌, ◌≤◌, ◌<◌, ◌≡◌, ap, arith, List, [], ◌∷◌, ◌++◌, length, some, length-append,
  replaced, weight-ge,
}
use mathlib.Core.Path.{subst}
use native.Mathlib.Decide.{dec_lt}
use chatting_server_single.ObjectPool.{Pool, Local, sub_pop, sub_push}
use chatting_server_single.ObjectPool.Paths.{count, count-append}
use chatting_server_single.ObjectPool.Chunks.{Chunk, nodes_of, alloc_chunk-Granted}
use chatting_server_single.ObjectPool.Chain.{
  chain, IsLocal, Popped, rest_pool, rest_local, sub_pop-front, front-Popped, self-count,
}
use chatting_server_single.ObjectPool.Refill.{
  filled_pool, filled_local, sub_pop-filled, back-Popped,
}
use chatting_server_single.ObjectPool.Return.{
  Pushed, back_pool, back_local, sub_push-kept, kept-Pushed,
}
use chatting_server_single.ObjectPool.Release.{
  released_pool, released_local, released_chunk, sub_push-released, released-Pushed,
}
use chatting_server_single.ObjectPool.Paths.{before_last}
use chatting_server_single.ObjectPool.Ownership.{
  Part, IsPart, size_of, Owns, mine-le, Popped-Owns, ours-le, Pushed-Owns,
}

-- What the threads own after a call of thread `i`.
abbrev pub OwnsNow : ℕ → (ℕ → Part) → ℕ → Pool → Local → List ℕ → List ℕ → Type 0
OwnsNow threads parts i p l out made =
    (fs : List ℕ) × (bs : List ℕ) × (cs : List Chunk) × Owns threads p
      (replaced parts i (some (l, fs, bs))) cs out made

module _ (threads : ℕ) (p : Pool) (parts : ℕ → Part) (cs : List Chunk) (i : ℕ) (here : i < threads)
    (l : Local) where
  module _ (out made : List ℕ) (v : Owns threads p parts cs out made) (t : ℕ) (ns : List ℕ)
      (fresh : (a : ℕ) → count a (t ∷ ns) + count a made ≤ 1)
      (sized : length (t ∷ ns) ≡ p.block_size) (few : p.max_block_count + 1 < 2 ^ 64) where
    abbrev Done : Type 0
    Done =
        (p' : Pool) × (l' : Local) × (n : ℕ) × (sub_pop (t ∷ ns) p l ≡ some (p', l', n))
        × OwnsNow threads parts i p' l' (n ∷ out) ((t ∷ ns) ++ made)
        × (count n out ≡ 0)
        × (p'.block_size ≡ p.block_size)

    done :
        (fs bs : List ℕ)
        → parts i ≡ some (l, fs, bs)
        → (p' : Pool) (l' : Local) (fs' bs' : List ℕ) (cs' : List Chunk) (n : ℕ) (added : List ℕ)
        → sub_pop (t ∷ ns) p l ≡ some (p', l', n)
        → Popped (t ∷ ns) p l fs bs cs p' l' fs' bs' cs' n added
        → Done
    done fs bs mine p' l' fs' bs' cs' n added e g =
        let (owns, new) =
          Popped-Owns threads p parts cs out made v i here l fs bs mine (t ∷ ns) fresh p' l' fs' bs'
            cs' n added g in
        (p', l', n, e, (fs', bs', cs', owns), new, g.same_size)

    -- A thread that has called before gets an object that nobody has.
    pub sub_pop-Owns : (fs bs : List ℕ) → parts i ≡ some (l, fs, bs) → Done
    sub_pop-Owns (f ∷ fs) bs mine =
        let own = subst (IsPart p) mine (v.each i here) in
        done (f ∷ fs) bs mine
          (rest_pool (t ∷ ns) p l f fs bs cs own v.pool (apart (f ∷ fs) bs mine))
          (rest_local (t ∷ ns) p l f fs bs cs own v.pool (apart (f ∷ fs) bs mine)) fs bs cs f []
          (sub_pop-front (t ∷ ns) p l f fs bs cs own v.pool (apart (f ∷ fs) bs mine))
          (front-Popped (t ∷ ns) p l f fs bs cs own v.pool (apart (f ∷ fs) bs mine))
      where
        apart :
            (fs bs : List ℕ)
            → parts i ≡ some (l, fs, bs)
            → (a : ℕ) → count a (t ∷ ns) + count a (chain l fs bs) + count a (nodes_of cs) ≤ 1
        apart fs bs mine a =
            omega
              (arith, mine-le threads p parts cs out made v i here l fs bs mine (t ∷ ns) fresh a)
    sub_pop-Owns [] (b ∷ bs) mine =
        let own = subst (IsPart p) mine (v.each i here) in
        let (p', c, cs', added, e, g) =
          alloc_chunk-Granted p t ns few sized cs v.pool (λ a. omega (arith, apart a)) in
        done [] (b ∷ bs) mine (filled_pool (t ∷ ns) p l b bs cs own v.pool apart p' c cs' added g)
          (filled_local (t ∷ ns) p l b bs cs own v.pool apart p' c cs' added g)
          (bs ++ l.tail_ptr ∷ []) c.1 cs' b added
          (sub_pop-filled (t ∷ ns) p l b bs cs own v.pool apart p' c cs' added g e)
          (back-Popped (t ∷ ns) p l b bs cs own v.pool apart p' c cs' added g)
      where
        apart :
            (a : ℕ) → count a (t ∷ ns) + count a (chain l [] (b ∷ bs)) + count a (nodes_of cs) ≤ 1
        apart a = omega (
          arith,
          mine-le threads p parts cs out made v i here l [] (b ∷ bs) mine (t ∷ ns) fresh a,
        )
    sub_pop-Owns [] [] mine =
        let own = subst (IsPart p) mine (v.each i here) in
        absurd (omega (arith, IsLocal.back own, v.pool.wide))

  module _ (before after made : List ℕ) (n : ℕ)
      (v : Owns threads p parts cs (before ++ n ∷ after) made)
      (few : p.max_block_count + 1 < 2 ^ 64) where
    abbrev Returned : Type 0
    Returned =
        (p' : Pool) × (l' : Local) × (sub_push n p l ≡ some (p', l'))
        × OwnsNow threads parts i p' l' (before ++ after) made
        × (p'.next n ≡ l.head_ptr)
        × (p'.address ≡ p.address)

    returned :
        (fs bs : List ℕ)
        → parts i ≡ some (l, fs, bs)
        → (p' : Pool) (l' : Local) (fs' bs' : List ℕ) (cs' : List Chunk)
        → sub_push n p l ≡ some (p', l')
        → Pushed p l fs bs cs n p' l' fs' bs' cs'
        → Returned
    returned fs bs mine p' l' fs' bs' cs' e g = (
      p',
      l',
      e,
      (
        fs',
        bs',
        cs',
        Pushed-Owns threads p parts cs before after made n v i here l fs bs mine p' l' fs' bs' cs'
            g,
      ),
      g.first,
      g.same_address,
    )

    handed : p.next n ≡ p.address
    handed = v.marks n (omega (arith, count-append n before (n ∷ after), self-count n))

    owed :
        (fs bs : List ℕ)
        → parts i ≡ some (l, fs, bs)
        → l.cur_node_size + 1 ≤ p.use_block_count * p.block_size
    owed fs bs mine = omega (
      arith,
      v.total,
      ap size_of mine,
      weight-ge size_of parts i threads here,
      length-append before (n ∷ after),
    )

    own : (fs bs : List ℕ) → parts i ≡ some (l, fs, bs) → IsLocal p l fs bs
    own fs bs mine = subst (IsPart p) mine (v.each i here)

    apart :
        (fs bs : List ℕ)
        → parts i ≡ some (l, fs, bs)
        → (a : ℕ) → count a (n ∷ []) + count a (chain l fs bs) + count a (nodes_of cs) ≤ 1
    apart fs bs mine a =
        omega (arith, ours-le threads p parts cs before after made n v i here l fs bs mine a)

    kept : (fs bs : List ℕ) → parts i ≡ some (l, fs, bs) → length fs < p.block_size → Returned
    kept fs bs mine room =
        let o = own fs bs mine in
        let d = apart fs bs mine in
        returned fs bs mine (back_pool p l fs bs cs n o v.pool handed d)
          (back_local p l fs bs cs n o v.pool handed d) (n ∷ fs) bs cs
          (sub_push-kept p l fs bs cs n o v.pool handed d room)
          (kept-Pushed p l fs bs cs n o v.pool handed d room)

    released :
        (f : ℕ) (fs bs : List ℕ)
        → parts i ≡ some (l, f ∷ fs, bs)
        → length (f ∷ fs) ≡ p.block_size
        → Returned
    released f fs bs mine full =
        let o = own (f ∷ fs) bs mine in
        let d = apart (f ∷ fs) bs mine in
        let u : p.use_block_count < 2 ^ 64 = omega (arith, v.pool.counted) in
        let w = owed (f ∷ fs) bs mine in
        returned (f ∷ fs) bs mine (released_pool p l f fs bs cs n o v.pool handed d u w full)
          (released_local p l f fs bs cs n o v.pool handed d u w full) (n ∷ []) (before_last f fs)
          (released_chunk p l f fs bs cs n o v.pool handed d u w full ∷ cs)
          (sub_push-released p l f fs bs cs n o v.pool handed d u w full)
          (released-Pushed p l f fs bs cs n o v.pool handed d u w full)

    -- A thread that has called before can give back any object that is handed out.
    pub sub_push-Owns : (fs bs : List ℕ) → parts i ≡ some (l, fs, bs) → Returned
    sub_push-Owns [] bs mine = kept [] bs mine (omega (arith, v.pool.wide))
    sub_push-Owns (f ∷ fs) bs mine = elim (dec_lt (length (f ∷ fs)) p.block_size) [
      | yes room ↦ kept (f ∷ fs) bs mine room
      | no full ↦ released f fs bs mine (omega (arith, IsLocal.front (own (f ∷ fs) bs mine)))
    ]
