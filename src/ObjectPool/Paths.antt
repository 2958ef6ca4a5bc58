-- ===== src/ObjectPool/Paths.antt =====
-- Nodes that the member `next` leads through, and how often a node stands in a list.
use chatting_server_single.Common.{
  ℕ, suc, ◌+◌, ◌≤◌, ◌<◌, ◌≡◌, refl, ap, arith, List, [], ◌∷◌, ◌++◌, length, last_of, ◌==◌,
  if◌then◌else◌, replaced,
}
use chatting_server_single.ObjectPool.{link}

abbrev pub count : ℕ → List ℕ → ℕ
count a [] = 0
count a (x ∷ xs) = (if x == a then 1 else 0) + count a xs

-- What stands in either part counts.
pub count-append :
    (node : ℕ) (front back : List ℕ)
    → count node (front ++ back) ≡ count node front + count node back
count-append node [] back = omega arith
count-append node (k ∷ front) back = omega (count-append node front back, arith)

-- From `p` the members `next` lead through the nodes `ks` to `e`.
abbrev pub LeadsTo : (ℕ → ℕ) → ℕ → List ℕ → ℕ → Type 0
LeadsTo next p [] e = p ≡ e
LeadsTo next p (k ∷ ks) e = (p ≡ k) × LeadsTo next (next k) ks e

-- The same where `next` is the same on these nodes.
pub LeadsTo-same :
    (next next' : ℕ → ℕ) (p : ℕ) (ks : List ℕ) (e : ℕ)
    → ((a : ℕ) → 0 < count a ks → next' a ≡ next a)
    → LeadsTo next p ks e
    → LeadsTo next' p ks e
LeadsTo-same next next' p [] e same h = h
LeadsTo-same next next' p (k ∷ ks) e same h = (
  h.0,
  rw (same k (ground arith))
      (LeadsTo-same next next' (next k) ks e (λ a i. same a (omega arith)) h.1),
)

pub LeadsTo-append :
    (next : ℕ → ℕ) (p : ℕ) (xs : List ℕ) (m : ℕ) (ys : List ℕ) (e : ℕ)
    → LeadsTo next p xs m
    → LeadsTo next m ys e
    → LeadsTo next p (xs ++ ys) e
LeadsTo-append next p [] m ys e h k = rw h k
LeadsTo-append next p (x ∷ xs) m ys e h k = (h.0, LeadsTo-append next (next x) xs m ys e h.1 k)

-- Those before the last one.
abbrev pub before_last : ℕ → List ℕ → List ℕ
before_last x [] = []
before_last x (y ∷ ys) = x ∷ before_last y ys

pub length-before_last : (x : ℕ) (xs : List ℕ) → length (before_last x xs) ≡ length xs
length-before_last x [] = refl
length-before_last x (y ∷ ys) = ap suc (length-before_last y ys)

pub count-before_last :
    (a x : ℕ) (xs : List ℕ)
    → count a (before_last x xs) + count a (last_of x xs ∷ []) ≡ count a (x ∷ xs)
count-before_last a x [] = omega arith
count-before_last a x (y ∷ ys) = omega (arith, count-before_last a y ys)

-- A way can be cut behind any node.
pub LeadsTo-cut :
    (next : ℕ → ℕ) (p x : ℕ) (xs ys : List ℕ) (e : ℕ)
    → LeadsTo next p ((x ∷ xs) ++ ys) e
    → LeadsTo next p (before_last x xs) (last_of x xs) × LeadsTo next (next (last_of x xs)) ys e
LeadsTo-cut next p x [] ys e h = h
LeadsTo-cut next p x (y ∷ xs) ys e h =
    let (l, r) = LeadsTo-cut next (next x) y xs ys e h.1 in ((h.0, l), r)

-- The nodes of a new chunk, the last one first.
abbrev pub linked : List ℕ → List ℕ → List ℕ
linked [] ks = ks
linked (n ∷ ns) ks = linked ns (n ∷ ks)

pub count-linked : (a : ℕ) (ns ks : List ℕ) → count a (linked ns ks) ≡ count a ns + count a ks
count-linked a [] ks = omega arith
count-linked a (n ∷ ns) ks = omega (arith, count-linked a ns (n ∷ ks))

pub length-linked : (ns ks : List ℕ) → length (linked ns ks) ≡ length ns + length ks
length-linked [] ks = omega arith
length-linked (n ∷ ns) ks = omega (arith, length-linked ns (n ∷ ks))

pub link-elsewhere :
    (a head : ℕ) (ns : List ℕ) (next : ℕ → ℕ) → count a ns ≡ 0 → (link head ns next).1 a ≡ next a
unfolding link
link-elsewhere a head [] next h = refl
link-elsewhere a head (n ∷ ns) next h = ground (arith, link-elsewhere a n ns (replaced next n head))

pub link-LeadsTo :
    (head : ℕ) (ns : List ℕ) (next : ℕ → ℕ) (ks : List ℕ) (t : ℕ)
    → ((a : ℕ) → count a ns + count a ks ≤ 1)
    → LeadsTo next head ks t
    → LeadsTo (link head ns next).1 (link head ns next).0 (linked ns ks) t
unfolding link
link-LeadsTo head [] next ks t once h = h
link-LeadsTo head (n ∷ ns) next ks t once h =
    link-LeadsTo n ns (replaced next n head) (n ∷ ks) t (λ a. omega (arith, once a))
      (refl, (rw here (LeadsTo-same next (replaced next n head) head ks t other h)))
  where
    here : replaced next n head n ≡ head
    here = ground arith

    other : (a : ℕ) → 0 < count a ks → replaced next n head a ≡ next a
    other a i = ground (arith, once a)
