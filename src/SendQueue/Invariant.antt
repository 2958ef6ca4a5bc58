-- ===== src/SendQueue/Invariant.antt =====
-- The nodes from the dummy to the tail, and the free ones.
use chatting_server_single.Common.{
  ℕ, ◌^◌, ◌<◌, ◌≡◌, ◌≢◌, refl, sym, ap₂, ◌∙◌, arith, List, [], ◌∷◌, ◌++◌, map, length, last_of,
  replaced,
}
use chatting_server_single.LockFree.{node_ptr}
use chatting_server_single.LockFree.Chain.{Chain, Apart, Distinct, Fresh}
use chatting_server_single.SendQueue.{Queue}

-- The nodes of a pool: addresses below 2 ^ 48, each once, and none of them that of a key.
abbrev pub AllFree : List ℕ → List ℕ → Type 0
AllFree ks [] = Unit
AllFree ks (n ∷ ns) = (0 < n) × (n < 2 ^ 48) × Apart n ks × AllFree ks ns

abbrev pub Once : List ℕ → Type 0
Once [] = Unit
Once (n ∷ ns) = Fresh n ns × Once ns

-- `ks` are the keys of the nodes behind the dummy.
pub record IsValid (q : Queue) (ks : List ℕ) : Type 0 where
  pub linked : Chain q.key q.head (q.head ∷ ks)
  pub ended : q.tail ≡ last_of q.head ks
  pub distinct : Distinct (q.head ∷ ks)
  pub counted : q.size ≡ length ks
  pub pool : AllFree (q.head ∷ ks) q.free
  pub separate : Once q.free

abbrev pub values : Queue → List ℕ → List ℕ
values q ks = map (λ k. q.value (node_ptr k)) ks

pub Apart-last_of : (a key : ℕ) (ks : List ℕ) → Apart a (key ∷ ks) → node_ptr (last_of key ks) ≢ a
Apart-last_of a key [] h = h.0
Apart-last_of a key (k ∷ ks) h = Apart-last_of a k ks h.1

pub Apart-append : (a x : ℕ) (ks : List ℕ) → Apart a ks → node_ptr x ≢ a → Apart a (ks ++ x ∷ [])
Apart-append a x [] h ne = (ne, tt)
Apart-append a x (k ∷ ks) h ne = (h.0, Apart-append a x ks h.1 ne)

pub Distinct-append :
    (x : ℕ) (ks : List ℕ) → Distinct ks → Apart (node_ptr x) ks → Distinct (ks ++ x ∷ [])
Distinct-append x [] d h = (tt, tt)
Distinct-append x (k ∷ ks) d h =
    (Apart-append (node_ptr k) x ks d.0 (λ e. h.0 (sym e)), Distinct-append x ks d.1 h.1)

pub replaced-here : (f : ℕ → ℕ) (i a : ℕ) → replaced f i a i ≡ a
replaced-here f i a = ground arith

pub replaced-there : (f : ℕ → ℕ) (i a j : ℕ) → j ≢ i → replaced f i a j ≡ f j
replaced-there f i a j ne = ground arith

-- A node whose member `key` is null goes behind the last one.
pub Chain-append :
    (next : ℕ → ℕ) (key k x : ℕ) (ks : List ℕ)
    → Chain next key (k ∷ ks)
    → Distinct (k ∷ ks)
    → Apart (node_ptr x) (k ∷ ks)
    → 0 < node_ptr x
    → next (node_ptr x) ≡ 0
    → Chain (replaced next (node_ptr (last_of k ks)) x) key ((k ∷ ks) ++ x ∷ [])
Chain-append next key k x [] h d away there ended = (
  h.0,
  h.1,
  (
    replaced-here next (node_ptr k) x,
    there,
    replaced-there next (node_ptr k) x (node_ptr x) (λ e. away.0 (sym e)) ∙ ended,
  ),
)
Chain-append next key k x (k' ∷ ks) h d away there ended = (
  h.0,
  h.1,
  rw
      (replaced-there next (node_ptr (last_of k' ks)) x (node_ptr k)
        (λ e. Apart-last_of (node_ptr k) k' ks d.0 (sym e)))
      (Chain-append next (next (node_ptr k)) k' x ks h.2 d.1 away.1 there ended),
)

pub AllFree-append :
    (x : ℕ) (ks ns : List ℕ) → AllFree ks ns → Fresh (node_ptr x) ns → AllFree (ks ++ x ∷ []) ns
AllFree-append x ks [] h away = tt
AllFree-append x ks (n ∷ ns) h away =
    (h.0, h.1, Apart-append n x ks h.2 (λ e. away.0 (sym e)), AllFree-append x ks ns h.3 away.1)

pub values-elsewhere :
    (value : ℕ → ℕ) (n t : ℕ) (ks : List ℕ)
    → Apart n ks
    → map (λ k. replaced value n t (node_ptr k)) ks ≡ map (λ k. value (node_ptr k)) ks
values-elsewhere value n t [] h = refl
values-elsewhere value n t (k ∷ ks) h =
    ap₂ ◌∷◌ (replaced-there value n t (node_ptr k) h.0) (values-elsewhere value n t ks h.1)

pub node_ptr-lt : (k : ℕ) → node_ptr k < 2 ^ 48
unfolding node_ptr
node_ptr-lt k = omega arith

pub AllFree-drop : (k : ℕ) (ks ns : List ℕ) → AllFree (k ∷ ks) ns → AllFree ks ns
AllFree-drop k ks [] h = tt
AllFree-drop k ks (n ∷ ns) h = (h.0, h.1, h.2.1, AllFree-drop k ks ns h.3)

pub Fresh-of_free : (k : ℕ) (ks ns : List ℕ) → AllFree (k ∷ ks) ns → Fresh (node_ptr k) ns
Fresh-of_free k ks [] h = tt
Fresh-of_free k ks (n ∷ ns) h = ((λ e. h.2.0 (sym e)), Fresh-of_free k ks ns h.3)

pub node_ptr-small : (a : ℕ) → a < 2 ^ 48 → node_ptr a ≡ a
unfolding node_ptr
node_ptr-small a h = omega arith
