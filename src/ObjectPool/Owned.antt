-- ===== src/ObjectPool/Owned.antt =====
-- What all threads own together, from the start on.
use mathlib.Core.Path.{subst}
use native.Mathlib.Decide.{ℕ_discrete}
use chatting_server_single.Common.{
  ℕ, ◌+◌, ◌^◌, ◌≤◌, ◌<◌, ◌≡◌, ◌≢◌, refl, sym, ap, arith, List, [], ◌∷◌, ◌++◌, length, Option, some,
  none, replaced, ◌==◌, false, weight-ge, weight-none,
}
use chatting_server_single.ObjectPool.{Pool, Local, init, sub_push}
use chatting_server_single.ObjectPool.Paths.{count, LeadsTo}
use chatting_server_single.ObjectPool.Chunks.{Chunk}
use chatting_server_single.ObjectPool.Chain.{IsLocal, self-count}
use chatting_server_single.ObjectPool.Ownership.{Part, IsPart, local_of, count_in, size_of, Owns}

-- What `new` returns for two chunks: nodes that are not there yet. `made` are all the nodes that
-- `new` has returned, and the pool.
pub record AreNew (p : Pool) (news news' made : List ℕ) : Type 0 where
  pub length_news : length news ≡ p.block_size
  pub length_news' : length news' ≡ p.block_size
  pub fresh : (a : ℕ) → count a news + count a news' + count a made ≤ 1
  pub few : p.max_block_count + 2 < 2 ^ 64

-- What threads with these chains own.
abbrev pub Owned : ℕ → Pool → (ℕ → Option Local) → List ℕ → List ℕ → Type 0
Owned threads p locals out made =
    (parts : ℕ → Part) × (cs : List Chunk) × ((j : ℕ) → local_of (parts j) ≡ locals j)
    × Owns threads p parts cs out made

pub Owns-more :
    (threads : ℕ) (p : Pool) (parts : ℕ → Part) (cs : List Chunk) (out made made' : List ℕ)
    → ((a : ℕ) → count a made ≤ count a made')
    → ((a : ℕ) → count a made' ≤ 1)
    → Owns threads p parts cs out made
    → Owns threads p parts cs out made'
Owns-more threads p parts cs out made made' more once v = record {
  pool = v.pool;
  each = v.each;
  owned = λ a. omega (arith, v.owned a, more a);
  once = once;
  marks = v.marks;
  total = v.total;
}

pub replaced_self {ℓ} : {A : Type ℓ} (f : ℕ → A) (i : ℕ) (a : A) → replaced f i a i ≡ a
replaced_self f i a = ground arith

-- The chain that a thread had is of no account after its call.
pub locals-replaced :
    (parts : ℕ → Part) (locals : ℕ → Option Local) (i : ℕ) (l : Local) (fs bs : List ℕ)
    → ((j : ℕ) → local_of (parts j) ≡ locals j)
    → (j : ℕ) → local_of (replaced parts i (some (l, fs, bs)) j) ≡ replaced locals i (some l) j
locals-replaced parts locals i l fs bs same j = elim (ℕ_discrete j i) [
  | yes e ↦ ground arith
  | no ne ↦ ground (arith, same j)
]

pub locals-replaced_twice :
    (parts : ℕ → Part) (locals : ℕ → Option Local) (i : ℕ) (x : Part) (l : Local) (fs bs : List ℕ)
    → ((j : ℕ) → local_of (parts j) ≡ locals j)
    → (j : ℕ)
    → local_of (replaced (replaced parts i x) i (some (l, fs, bs)) j) ≡ replaced locals i (some l) j
locals-replaced_twice parts locals i x l fs bs same j = elim (ℕ_discrete j i) [
  | yes e ↦ ground arith
  | no ne ↦ ground (arith, same j)
]

pub init-Owned :
    (threads address size : ℕ) (next : ℕ → ℕ) (p : Pool) (locals : ℕ → Option Local)
    → 2 ≤ size
    → size < 2 ^ 15
    → p ≡ init address size next
    → ((i : ℕ) → locals i ≡ none)
    → Owned threads p locals [] (address ∷ [])
unfolding init
init-Owned threads address size next p locals wide narrow e none_yet = (
  (λ _. none),
  [],
  (λ j. sym (none_yet j)),
  rw e (record {
    pool = record {
      blocks = refl;
      chunks = tt;
      counted = omega arith;
      wide = wide;
      narrow = narrow;
    };
    each = λ i h. tt;
    owned = λ a. omega (arith, weight-none (count_in a) (λ _. none) threads (λ i h. refl));
    once = λ a. ground arith;
    marks = λ a h. absurd (omega arith);
    total = omega (arith, weight-none size_of (λ _. none) threads (λ i h. refl));
  }),
)

count-head :
    (next : ℕ → ℕ) (h : ℕ) (ks : List ℕ) (e : ℕ) → LeadsTo next h ks e → 0 < count h (ks ++ e ∷ [])
count-head next h [] e path = ground arith
count-head next h (k ∷ ks) e path = ground arith

-- The head of a chain is no pool.
pub head-ne-address :
    (threads : ℕ) (p : Pool) (parts : ℕ → Part) (cs : List Chunk) (out made : List ℕ)
    → Owns threads p parts cs out made
    → (i : ℕ) → i < threads
    → (l : Local) (fs bs : List ℕ) → parts i ≡ some (l, fs, bs)
    → l.head_ptr ≢ p.address
head-ne-address threads p parts cs out made v i here l fs bs mine e =
    let own = subst (IsPart p) mine (v.each i here) in
    omega (
      arith,
      count-head p.next l.head_ptr (fs ++ bs) l.tail_ptr (IsLocal.path own),
      ap (count_in l.head_ptr) mine,
      weight-ge (count_in l.head_ptr) parts i threads here,
      v.owned l.head_ptr,
      v.once l.head_ptr,
      self-count p.address,
      ap (λ (a : ℕ). count a (p.address ∷ [])) e,
    )

-- An object that is not marked as handed out is not taken.
pub sub_push-unmarked :
    (n : ℕ) (p : Pool) (l : Local) → p.next n ≢ p.address → sub_push n p l ≡ none
unfolding sub_push
sub_push-unmarked n p l ne = rw unequal refl
  where
    unequal : (p.next n == p.address) ≡ false
    unequal = ground arith
