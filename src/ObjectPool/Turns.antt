-- ===== src/ObjectPool/Turns.antt =====
-- A call of `Alloc` or `Free` by a thread among others.
use mathlib.Core.Path.{subst}
use chatting_server_single.Common.{
  ℕ, ◌+◌, ◌<◌, ◌≡◌, ◌⊎◌, inl, inr, refl, sym, ap, ◌∙◌, arith, List, [], ◌∷◌, ◌++◌, length, Option,
  some, none, replaced,
}
use chatting_server_single.ObjectPool.{Pool, Local, alloc, free}
use chatting_server_single.ObjectPool.Paths.{count, count-append}
use chatting_server_single.ObjectPool.Chunks.{Chunk}
use chatting_server_single.ObjectPool.Ownership.{Part, local_of, Owns}
use chatting_server_single.ObjectPool.Opening.{open_local-Owns}
use chatting_server_single.ObjectPool.Calls.{sub_pop-Owns, sub_push-Owns}
use chatting_server_single.ObjectPool.Owned.{
  AreNew, Owned, Owns-more, replaced_self, locals-replaced, locals-replaced_twice, head-ne-address,
  sub_push-unmarked,
}

module _ (threads : ℕ) (p : Pool) (locals : ℕ → Option Local) (out made : List ℕ) (i : ℕ)
    (here : i < threads) (t : ℕ) (ns : List ℕ) (t' : ℕ) (ns' : List ℕ)
    (new : AreNew p (t ∷ ns) (t' ∷ ns') made) where
  abbrev all_made : List ℕ
  all_made = (t' ∷ ns') ++ ((t ∷ ns) ++ made)

  count-all_made : (a : ℕ) → count a all_made ≡ count a (t' ∷ ns') + count a (t ∷ ns) + count a made
  count-all_made a =
      omega (arith, count-append a (t' ∷ ns') ((t ∷ ns) ++ made), count-append a (t ∷ ns) made)

  abbrev Alloced : Option Local → Type 0
  Alloced mine =
      (p' : Pool) × (l' : Local) × (n : ℕ) × (alloc (t ∷ ns) (t' ∷ ns') p mine ≡ some (p', l', n))
      × Owned threads p' (replaced locals i (some l')) (n ∷ out) all_made
      × (count n out ≡ 0)

  alloc_old :
      (parts : ℕ → Part) (cs : List Chunk)
      → ((j : ℕ) → local_of (parts j) ≡ locals j)
      → Owns threads p parts cs out made
      → (l : Local) (fs bs : List ℕ) → parts i ≡ some (l, fs, bs)
      → Alloced (some l)
  unfolding alloc
  alloc_old parts cs same v l fs bs mine =
      let (p', l', n, e, (fs', bs', cs', owns), fresh, size) =
        sub_pop-Owns threads p parts cs i here l out made v t' ns' (λ a. omega (arith, new.fresh a))
          new.length_news' (omega (arith, new.few)) fs bs mine in
      (
        p',
        l',
        n,
        e,
        (
          replaced parts i (some (l', fs', bs')),
          cs',
          locals-replaced parts locals i l' fs' bs' same,
          Owns-more threads p' (replaced parts i (some (l', fs', bs'))) cs' (n ∷ out)
              ((t' ∷ ns') ++ made) all_made
              (λ a. omega (arith, count-all_made a, count-append a (t' ∷ ns') made))
              (λ a. omega (arith, count-all_made a, new.fresh a)) owns,
        ),
        fresh,
      )

  alloc_first :
      (parts : ℕ → Part) (cs : List Chunk)
      → ((j : ℕ) → local_of (parts j) ≡ locals j)
      → Owns threads p parts cs out made
      → parts i ≡ none
      → Alloced none
  unfolding alloc
  alloc_first parts cs same v mine =
      let (p1, l, bs, cs1, e1, owns1, size, address, grown) =
        open_local-Owns threads p parts cs out made v i here mine t ns
          (λ a. omega (arith, new.fresh a)) new.length_news (omega (arith, new.few)) in
      let parts1 : ℕ → Part = replaced parts i (some (l, [], bs)) in
      let (p', l', n, e, (fs', bs', cs', owns), fresh, _) =
        sub_pop-Owns threads p1 parts1 cs1 i here l out ((t ∷ ns) ++ made) owns1 t' ns'
          (λ a. omega (arith, new.fresh a, count-append a (t ∷ ns) made))
          (new.length_news' ∙ sym size) (omega (arith, new.few, grown)) [] bs
          (replaced_self parts i (some (l, [], bs))) in
      (
        p',
        l',
        n,
        rw e1 e,
        (
          replaced parts1 i (some (l', fs', bs')),
          cs',
          locals-replaced_twice parts locals i (some (l, [], bs)) l' fs' bs' same,
          owns,
        ),
        fresh,
      )

  abbrev Freed : ℕ → List ℕ → Option Local → Type 0
  Freed n rest mine =
      (p' : Pool) × (l' : Local) × (free (t ∷ ns) n p mine ≡ some (p', l'))
      × Owned threads p' (replaced locals i (some l')) rest all_made
      × (free (t ∷ ns) n p' (some l') ≡ none)

  free_old :
      (parts : ℕ → Part) (cs : List Chunk) (before after : List ℕ) (n : ℕ)
      → ((j : ℕ) → local_of (parts j) ≡ locals j)
      → Owns threads p parts cs (before ++ n ∷ after) made
      → (l : Local) (fs bs : List ℕ) → parts i ≡ some (l, fs, bs)
      → Freed n (before ++ after) (some l)
  unfolding free
  free_old parts cs before after n same v l fs bs mine =
      let (p', l', e, (fs', bs', cs', owns), first, address) =
        sub_push-Owns threads p parts cs i here l before after made n v (omega (arith, new.few)) fs
          bs mine in
      let apart =
        head-ne-address threads p parts cs (before ++ n ∷ after) made v i here l fs bs mine in
      (
        p',
        l',
        e,
        (
          replaced parts i (some (l', fs', bs')),
          cs',
          locals-replaced parts locals i l' fs' bs' same,
          Owns-more threads p' (replaced parts i (some (l', fs', bs'))) cs' (before ++ after) made
              all_made (λ a. omega (arith, count-all_made a))
              (λ a. omega (arith, count-all_made a, new.fresh a)) owns,
        ),
        sub_push-unmarked n p' l' (λ k. apart (sym first ∙ k ∙ address)),
      )

  free_first :
      (parts : ℕ → Part) (cs : List Chunk) (before after : List ℕ) (n : ℕ)
      → ((j : ℕ) → local_of (parts j) ≡ locals j)
      → Owns threads p parts cs (before ++ n ∷ after) made
      → parts i ≡ none
      → Freed n (before ++ after) none
  unfolding free
  free_first parts cs before after n same v mine =
      let (p1, l, bs, cs1, e1, owns1, size, address1, grown) =
        open_local-Owns threads p parts cs (before ++ n ∷ after) made v i here mine t ns
          (λ a. omega (arith, new.fresh a)) new.length_news (omega (arith, new.few)) in
      let parts1 : ℕ → Part = replaced parts i (some (l, [], bs)) in
      let here1 = replaced_self parts i (some (l, [], bs)) in
      let (p', l', e, (fs', bs', cs', owns), first, address) =
        sub_push-Owns threads p1 parts1 cs1 i here l before after ((t ∷ ns) ++ made) n owns1
          (omega (arith, new.few, grown)) [] bs here1 in
      let apart =
        head-ne-address threads p1 parts1 cs1 (before ++ n ∷ after) ((t ∷ ns) ++ made) owns1 i here
          l [] bs here1 in
      (
        p',
        l',
        rw e1 e,
        (
          replaced parts1 i (some (l', fs', bs')),
          cs',
          locals-replaced_twice parts locals i (some (l, [], bs)) l' fs' bs' same,
          Owns-more threads p' (replaced parts1 i (some (l', fs', bs'))) cs' (before ++ after)
              ((t ∷ ns) ++ made) all_made
              (λ a. omega (arith, count-all_made a, count-append a (t ∷ ns) made))
              (λ a. omega (arith, count-all_made a, new.fresh a)) owns,
        ),
        sub_push-unmarked n p' l' (λ k. apart (sym first ∙ k ∙ address)),
      )

-- A thread that calls for the first time, or not.
part_cases :
    (x : Part) → (x ≡ none) ⊎ ((l : Local) × (fs : List ℕ) × (bs : List ℕ) × (x ≡ some (l, fs, bs)))
part_cases none = inl refl
part_cases (some (l, fs, bs)) = inr (l, fs, bs, refl)

-- There are nodes in a chunk.
nodes_cases : (news : List ℕ) → 0 < length news → (t : ℕ) × (ns : List ℕ) × (news ≡ t ∷ ns)
nodes_cases [] h = absurd (omega arith)
nodes_cases (t ∷ ns) h = (t, ns, refl)

module _ (threads : ℕ) (p : Pool) (locals : ℕ → Option Local) where
  pub alloc-Owned :
      (out made : List ℕ) (i : ℕ)
      → i < threads
      → (news news' : List ℕ) → AreNew p news news' made
      → Owned threads p locals out made
      → (p' : Pool) × (l' : Local) × (n : ℕ) × (alloc news news' p (locals i) ≡ some (p', l', n))
        × Owned threads p' (replaced locals i (some l')) (n ∷ out) (news' ++ (news ++ made))
        × (count n out ≡ 0)
  alloc-Owned out made i here news news' new (parts, cs, same, v) =
      let (t, ns, e) = nodes_cases news (omega (arith, new.length_news, v.pool.wide)) in
      let (t', ns', e') = nodes_cases news' (omega (arith, new.length_news', v.pool.wide)) in
      let new' = rw (e, e') at new in
      rw (e, e')
        (elim (part_cases (parts i)) [
          | inl mine ↦
              subst (Alloced threads p locals out made i here t ns t' ns' new')
                (sym (ap local_of mine) ∙ same i)
                (alloc_first threads p locals out made i here t ns t' ns' new' parts cs same v mine)
          | inr (l, fs, bs, mine) ↦
              subst (Alloced threads p locals out made i here t ns t' ns' new')
                (sym (ap local_of mine) ∙ same i)
                (alloc_old threads p locals out made i here t ns t' ns' new' parts cs same v l fs bs
                  mine)
        ])

  pub free-Owned :
      (made : List ℕ) (i : ℕ)
      → i < threads
      → (news news' : List ℕ) → AreNew p news news' made
      → (before after : List ℕ) (n : ℕ) → Owned threads p locals (before ++ n ∷ after) made
      → (p' : Pool) × (l' : Local) × (free news n p (locals i) ≡ some (p', l'))
        × Owned threads p' (replaced locals i (some l')) (before ++ after) (news' ++ (news ++ made))
        × (free news n p' (some l') ≡ none)
  free-Owned made i here news news' new before after n (parts, cs, same, v) =
      let out : List ℕ = before ++ n ∷ after in
      let (t, ns, e) = nodes_cases news (omega (arith, new.length_news, v.pool.wide)) in
      let (t', ns', e') = nodes_cases news' (omega (arith, new.length_news', v.pool.wide)) in
      let new' = rw (e, e') at new in
      rw (e, e')
        (elim (part_cases (parts i)) [
          | inl mine ↦
              subst (Freed threads p locals out made i here t ns t' ns' new' n (before ++ after))
                (sym (ap local_of mine) ∙ same i)
                (free_first threads p locals out made i here t ns t' ns' new' parts cs before after
                  n same v mine)
          | inr (l, fs, bs, mine) ↦
              subst (Freed threads p locals out made i here t ns t' ns' new' n (before ++ after))
                (sym (ap local_of mine) ∙ same i)
                (free_old threads p locals out made i here t ns t' ns' new' parts cs before after n
                  same v l fs bs mine)
        ])
