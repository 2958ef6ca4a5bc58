-- ===== src/ObjectPool/Threads.antt =====
-- Threads that call `Alloc` and `Free` in any order, one call after the other.
use mathlib.Core.Path.{subst}
use chatting_server_single.Common.{
  ℕ, ◌^◌, ◌≤◌, ◌<◌, ◌≡◌, sym, ◌∙◌, List, [], ◌∷◌, ◌++◌, Option, some, none, replaced,
}
use chatting_server_single.ObjectPool.{Pool, Local, init, alloc, free}
use chatting_server_single.ObjectPool.Paths.{count}
use chatting_server_single.ObjectPool.Owned.{AreNew, Owned, init-Owned}
use chatting_server_single.ObjectPool.Turns.{alloc-Owned, free-Owned}

-- `out` are the objects that are handed out.
pub data Run (threads address chunk_block_size : ℕ) (next : ℕ → ℕ)
    : Pool → (ℕ → Option Local) → List ℕ → List ℕ → Type 0 where
  start :
      {p : Pool} {locals : ℕ → Option Local}
      → p ≡ init address chunk_block_size next
      → ((i : ℕ) → locals i ≡ none)
      → Run threads address chunk_block_size next p locals [] (address ∷ [])
  allocated :
      {p p' : Pool} {locals : ℕ → Option Local} {out made : List ℕ} {l' : Local}
      → (i n : ℕ) (news news' : List ℕ)
      → Run threads address chunk_block_size next p locals out made
      → i < threads
      → AreNew p news news' made
      → alloc news news' p (locals i) ≡ some (p', l', n)
      → Run threads address chunk_block_size next p'
          (replaced locals i (some l'))
          (n ∷ out)
          (news' ++ (news ++ made))
  freed :
      {p p' : Pool} {locals : ℕ → Option Local} {out made : List ℕ} {l' : Local}
      → (i n : ℕ) (news news' before after : List ℕ)
      → Run threads address chunk_block_size next p locals out made
      → out ≡ before ++ n ∷ after
      → i < threads
      → AreNew p news news' made
      → free news n p (locals i) ≡ some (p', l')
      → Run threads address chunk_block_size next p'
          (replaced locals i (some l'))
          (before ++ after)
          (news' ++ (news ++ made))

-- What holds of the outcome of a call.
abbrev After {ℓ κ} : {A : Type ℓ} → (A → Type κ) → Option A → Type κ
After P none = Unit
After P (some a) = P a

Run-Owned :
    (threads address size : ℕ) (next : ℕ → ℕ) {p : Pool} {locals : ℕ → Option Local}
    {out made : List ℕ}
    → 2 ≤ size
    → size < 2 ^ 15
    → Run threads address size next p locals out made
    → Owned threads p locals out made
Run-Owned threads address size next {p} {locals} wide narrow (start e none_yet) =
    init-Owned threads address size next p locals wide narrow e none_yet
Run-Owned threads address size next wide narrow
      (allocated {p} {locals} {out} {made} i n news news' run here new e) =
    let (p', l', n', e', owned, _) =
      alloc-Owned threads p locals out made i here news news' new
        (Run-Owned threads address size next wide narrow run) in
    subst
      (After (λ (p', l', n).
        Owned threads p' (replaced locals i (some l')) (n ∷ out) (news' ++ (news ++ made))))
      (sym e' ∙ e) owned
Run-Owned threads address size next wide narrow
      (freed {p} {locals} {out} {made} i n news news' before after run split here new e) =
    let (p', l', e', owned, _) =
      free-Owned threads p locals made i here news news' new before after n (
        subst (λ o. Owned threads p locals o made) split
          (Run-Owned threads address size next wide narrow run)) in
    subst
      (After (λ (p', l').
        Owned threads p' (replaced locals i (some l')) (before ++ after) (news' ++ (news ++ made))))
      (sym e' ∙ e) owned

-- Threads have called `Alloc` and `Free` on a new pool, in any order, and given back only what was
-- handed out; chunks have from 2 to 2 ^ 15 - 1 nodes. If a thread calls `Alloc` then, and `new`
-- returns nodes that are not there yet, it gets an object that nobody has at the time.
pub alloc_lem :
    (threads address size : ℕ) (next : ℕ → ℕ) (p : Pool) (locals : ℕ → Option Local)
    (out made : List ℕ) (i : ℕ) (news news' : List ℕ)
    → 2 ≤ size
    → size < 2 ^ 15
    → Run threads address size next p locals out made
    → i < threads
    → AreNew p news news' made
    → (p' : Pool) × (l' : Local) × (n : ℕ) × (alloc news news' p (locals i) ≡ some (p', l', n))
      × (count n out ≡ 0)
alloc_lem threads address size next p locals out made i news news' wide narrow run here new =
    let owned = Run-Owned threads address size next wide narrow run in
    let (p', l', n, e, _, apart) =
      alloc-Owned threads p locals out made i here news news' new owned in
    (p', l', n, e, apart)

-- Threads have called `Alloc` and `Free` on a new pool, in any order, and given back only what was
-- handed out; chunks have from 2 to 2 ^ 15 - 1 nodes. Any thread can give back any object that is
-- handed out, if `new` returns nodes that are not there yet; if it gives that object back again at
-- once, this is a fault.
pub free_lem :
    (threads address size : ℕ) (next : ℕ → ℕ) (p : Pool) (locals : ℕ → Option Local)
    (before after made : List ℕ) (n i : ℕ) (news news' : List ℕ)
    → 2 ≤ size
    → size < 2 ^ 15
    → Run threads address size next p locals (before ++ n ∷ after) made
    → i < threads
    → AreNew p news news' made
    → (p' : Pool) × (l' : Local) × (free news n p (locals i) ≡ some (p', l'))
      × (free news n p' (some l') ≡ none)
free_lem threads address size next p locals before after made n i news news' wide narrow run here
      new =
    let owned = Run-Owned threads address size next wide narrow run in
    let (p', l', e, _, faults) =
      free-Owned threads p locals made i here news news' new before after n owned in
    (p', l', e, faults)
