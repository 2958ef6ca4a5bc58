-- ===== src/LockFree/Knowledge.antt =====
-- What a thread knows of the nodes, with the keys from the top on as a list, and that it keeps
-- knowing it when other threads go on.
use chatting_server_single.Common.{
  ℕ, ◌+◌, ◌^◌, ◌≤◌, ◌<◌, ◌≡◌, ◌≢◌, sym, ap, ◌∙◌, arith, true, List, [], ◌∷◌, replaced,
}
use chatting_server_single.LockFree.{
  node_ptr, Shared, Pc, idle, owning, keyed, loaded, linked, free_loaded, free_linked, reading,
  seen, faulted, Move, insert, remove,
}
use chatting_server_single.LockFree.Chain.{
  age, null_key, Chain, Apart, Distinct, Fresh, Tagged, AllLive, Agrees, Agrees-write,
}

-- The node that a thread owns, the key that it has made and not yet put on top, and the key that
-- it is going to compare the top with; zero for none.
abbrev pub owned : Pc → ℕ
owned (owning a) = a
owned (keyed a _) = a
owned (loaded a _ _) = a
owned (linked a _ _) = a
owned (free_loaded a _) = a
owned (free_linked a _) = a
owned _ = 0

abbrev pub made : Pc → ℕ
made (keyed _ k) = k
made (loaded _ k _) = k
made (linked _ k _) = k
made _ = 0

abbrev pub compared : Pc → ℕ
compared (reading c) = c
compared (seen c _) = c
compared _ = 0

abbrev pub Owns : Shared → List ℕ → ℕ → Type 0
Owns s ks a = (0 < a) × (a < 2 ^ 48) × (s.live a ≡ true) × Apart a ks

abbrev pub Keys : Shared → List ℕ → ℕ → ℕ → Type 0
Keys s ks a k = (node_ptr k ≡ a) × (age s.first_count k ≤ s.increments) × Fresh k ks

abbrev pub Compares : Shared → ℕ → Type 0
Compares s c = (0 < node_ptr c) × (age s.first_count c ≤ s.increments)

-- What a thread knows.
abbrev pub Knows : Shared → List ℕ → Pc → Type 0
Knows s ks idle = Unit
Knows s ks faulted = Unit
Knows s ks (owning a) = Owns s ks a
Knows s ks (keyed a k) = Owns s ks a × Keys s ks a k
Knows s ks (loaded a k c) = Owns s ks a × Keys s ks a k
Knows s ks (linked a k c) = Owns s ks a × Keys s ks a k × (s.next a ≡ c)
Knows s ks (free_loaded a c) = Owns s ks a
Knows s ks (free_linked a c) = Owns s ks a × (s.next a ≡ c)
Knows s ks (reading c) = Compares s c
Knows s ks (seen c x) = Compares s c × Agrees s.next c x ks

abbrev pub rest_of : List ℕ → List ℕ
rest_of [] = []
rest_of (k ∷ ks) = ks

-- The keys after the access.
abbrev pub after : {s s' : Shared} {p p' : Pc} → Move s p s' p' → List ℕ → List ℕ
after (insert {a} {k} e) ks = k ∷ ks
after (remove e) ks = rest_of ks
after _ ks = ks

-- Another thread `p` keeps what it knows.
pub Knows-allocate :
    (s : Shared) (ks : List ℕ) (p : Pc) (a : ℕ)
    → Knows s ks p
    → Knows (record s { live = replaced s.live a true }) ks p
Knows-allocate s ks (seen c x) a h = h
Knows-allocate s ks p a h = ground arith

pub Knows-make :
    (s : Shared) (ks : List ℕ) (p : Pc)
    → Knows s ks p
    → Knows (record s { increments = s.increments + 1 }) ks p
Knows-make s ks (seen c x) h = ((h.0.0, omega (arith, h.0.1)), h.1)
Knows-make s ks p h = ground arith

pub Knows-link :
    (s : Shared) (ks : List ℕ) (p : Pc) (a c : ℕ)
    → Apart a ks
    → owned p ≢ a
    → Knows s ks p
    → Knows (record s { next = replaced s.next a c }) ks p
Knows-link s ks (seen c x) a d away ne h = (h.0, Agrees-write s.next a d c x ks away h.1)
Knows-link s ks p a d away ne h = ground arith

pub Knows-insert :
    (s : Shared) (ks : List ℕ) (p : Pc) (k : ℕ)
    → (0 < owned p → owned p ≢ node_ptr k)
    → k ≢ compared p
    → Knows s ks p
    → Knows (record s { top_key = k }) (k ∷ ks) p
Knows-insert s ks (seen c x) k ne other h = (h.0, ((λ e. absurd (other e)), h.1))
Knows-insert s ks p k ne other h = ground (arith, ap node_ptr)

pub Knows-remove :
    (s : Shared) (x : ℕ) (ks : List ℕ) (p : Pc)
    → Knows s ks p
    → Knows (record s { top_key = x }) (rest_of ks) p
Knows-remove s x [] p h = ground arith
Knows-remove s x (k ∷ ks) (seen c y) h = (h.0, h.1.1)
Knows-remove s x (k ∷ ks) p h = ground arith

pub owned_lem :
    (s : Shared) (ks : List ℕ) (p : Pc)
    → Knows s ks p
    → 0 < owned p
    → (s.live (owned p) ≡ true) × Apart (owned p) ks
owned_lem s ks idle h pos = absurd (omega arith)
owned_lem s ks p h pos = ground arith

pub compared_lem :
    (s : Shared) (ks : List ℕ) (p : Pc)
    → Knows s ks p
    → 0 < compared p
    → age s.first_count (compared p) ≤ s.increments
compared_lem s ks idle h pos = absurd (omega arith)
compared_lem s ks p h pos = ground arith

pub made_lem :
    (s : Shared) (ks : List ℕ) (p : Pc)
    → Knows s ks p
    → 0 < made p
    → (node_ptr (made p) ≡ owned p) × (0 < owned p) × Fresh (made p) ks
made_lem s ks idle h pos = absurd (omega arith)
made_lem s ks p h pos = ground arith

pub made-compared : (p : Pc) → 0 < made p → made p ≢ compared p
made-compared idle pos = absurd (omega arith)
made-compared p pos = ground arith

-- What the top is, if there is a node.
pub top_lem :
    (s : Shared) (ks : List ℕ)
    → Chain s.next s.top_key ks
    → Tagged s.first_count s.increments ks
    → 0 < node_ptr s.top_key
    → age s.first_count s.top_key ≤ s.increments
top_lem s [] chain tags there = absurd (omega (arith, null_key, ap node_ptr chain))
top_lem s (k ∷ ks) chain tags there = rw chain.0 tags.0

pub Fresh-top :
    (s : Shared) (ks : List ℕ) (k : ℕ)
    → Chain s.next s.top_key ks
    → 0 < node_ptr s.top_key
    → Fresh k ks
    → k ≢ s.top_key
Fresh-top s [] k chain there fresh = absurd (omega (arith, null_key, ap node_ptr chain))
Fresh-top s (h ∷ ks) k chain there fresh = λ e. fresh.0 (sym chain.0 ∙ sym e)

pub remove_lem :
    (s : Shared) (ks : List ℕ) (c : ℕ)
    → Chain s.next s.top_key ks
    → Distinct ks
    → AllLive s.live ks
    → s.top_key ≡ c
    → 0 < node_ptr c
    → Owns s (rest_of ks) (node_ptr c)
unfolding node_ptr
remove_lem s [] c chain apart live top there =
    absurd (omega (arith, there, ap node_ptr (sym top ∙ chain)))
remove_lem s (k ∷ ks) c chain apart live top there =
    (there, omega arith, rw same live.0, rw same apart.0)
  where
    same : c ≡ k
    same = sym top ∙ chain.0

pub remove-owned :
    (s : Shared) (ks : List ℕ) (c a : ℕ)
    → Chain s.next s.top_key ks
    → s.top_key ≡ c
    → 0 < node_ptr c
    → Apart a ks
    → a ≢ node_ptr c
remove-owned s [] c a chain top there apart =
    absurd (omega (arith, there, null_key, ap node_ptr (sym top ∙ chain)))
remove-owned s (k ∷ ks) c a chain top there apart =
    λ e. apart.0 (ap node_ptr (sym chain.0 ∙ top) ∙ sym e)

pub remove-Chain :
    (s : Shared) (ks : List ℕ) (c x : ℕ)
    → Chain s.next s.top_key ks
    → s.top_key ≡ c
    → 0 < node_ptr c
    → Agrees s.next c x ks
    → Chain s.next x (rest_of ks)
remove-Chain s [] c x chain top there agrees =
    absurd (omega (arith, there, null_key, ap node_ptr (sym top ∙ chain)))
remove-Chain s (k ∷ ks) c x chain top there agrees = rw (← agrees.0 (sym chain.0 ∙ top)) chain.2
