-- ===== src/LockFree/Chain.antt =====
-- The keys from the top of the stack on, and what a write to a node outside of them leaves.
use chatting_server_single.Common.{
  ℕ, ◌+◌, ◌*◌, ◌%◌, ◌^◌, ◌≤◌, ◌<◌, ◌≡◌, ◌≢◌, refl, ap, ◌∙◌, arith, Bool, true, false, List, [], ◌∷◌,
  bit_or_apart, bit_or, u64, ◌-◌, replaced,
}
use chatting_server_single.LockFree.{make_key, node_ptr, get_push_no}

-- How many keys were made between the first one, with the number after `first`, and this one,
-- counted modulo 2 ^ 16.
pub age : ℕ → ℕ → ℕ
unfolding get_push_no
age first key = (get_push_no key + 2 ^ 16 - first % 2 ^ 16) % 2 ^ 16

-- A key is the address and the last 16 bits of the number side by side.
make_key_sum : (a m : ℕ) → a < 2 ^ 48 → make_key a m ≡ a + m % 2 ^ 16 * 2 ^ 48
unfolding make_key
make_key_sum a m h =
    ap (bit_or a) {y = m % 2 ^ 16 * 2 ^ 48} (omega arith) ∙ bit_or_apart 48 a (m % 2 ^ 16) h

pub key_parts :
    (first a m : ℕ)
    → a < 2 ^ 48
    → m < 2 ^ 16
    → (node_ptr (make_key a (u64 (first + m))) ≡ a) × (age first (make_key a (u64 (first + m))) ≡ m)
unfolding node_ptr get_push_no age
key_parts first a m h k = rw (make_key_sum a (u64 (first + m)) h) (omega arith, omega arith)

-- The address comes back whatever the number is.
pub node_ptr-make_key : (a m : ℕ) → a < 2 ^ 48 → node_ptr (make_key a m) ≡ a
unfolding make_key node_ptr
node_ptr-make_key a m h =
    ap (λ t. bit_or a t % 2 ^ 48) {y = m % 2 ^ 16 * 2 ^ 48} (omega arith)
    ∙ omega (arith, bit_or_apart 48 a (m % 2 ^ 16) h)

pub null_key : node_ptr 0 ≡ 0
unfolding node_ptr
null_key = refl

pub key_positive : (k : ℕ) → 0 < node_ptr k → 0 < k
unfolding node_ptr
key_positive k h = omega arith

-- Followed from `key` on, the members `next` give these keys, and then null.
abbrev pub Chain : (ℕ → ℕ) → ℕ → List ℕ → Type 0
Chain next key [] = key ≡ 0
Chain next key (k ∷ ks) = (key ≡ k) × (0 < node_ptr k) × Chain next (next (node_ptr k)) ks

-- None of the keys is that of node `a`.
abbrev pub Apart : ℕ → List ℕ → Type 0
Apart a [] = Unit
Apart a (k ∷ ks) = (node_ptr k ≢ a) × Apart a ks

abbrev pub Distinct : List ℕ → Type 0
Distinct [] = Unit
Distinct (k ∷ ks) = Apart (node_ptr k) ks × Distinct ks

abbrev pub Fresh : ℕ → List ℕ → Type 0
Fresh key [] = Unit
Fresh key (k ∷ ks) = (k ≢ key) × Fresh key ks

-- The ages of the keys are at most `m`.
abbrev pub Tagged : ℕ → ℕ → List ℕ → Type 0
Tagged first m [] = Unit
Tagged first m (k ∷ ks) = (age first k ≤ m) × Tagged first m ks

abbrev pub AllLive : (ℕ → Bool) → List ℕ → Type 0
AllLive live [] = Unit
AllLive live (k ∷ ks) = (live (node_ptr k) ≡ true) × AllLive live ks

-- If key `c` is among them, the key after it is `x`.
abbrev pub Agrees : (ℕ → ℕ) → ℕ → ℕ → List ℕ → Type 0
Agrees next c x [] = Unit
Agrees next c x (k ∷ ks) = (k ≡ c → next (node_ptr k) ≡ x) × Agrees next c x ks

replaced-elsewhere : (next : ℕ → ℕ) (a c b : ℕ) → b ≢ a → replaced next a c b ≡ next b
replaced-elsewhere next a c b ne = ground arith

pub Chain-write :
    (next : ℕ → ℕ) (a c key : ℕ) (ks : List ℕ)
    → Apart a ks
    → Chain next key ks
    → Chain (replaced next a c) key ks
Chain-write next a c key [] away h = h
Chain-write next a c key (k ∷ ks) (ne, away) (e, there, h) = (
  e,
  there,
  rw (replaced-elsewhere next a c (node_ptr k) ne)
      (Chain-write next a c (next (node_ptr k)) ks away h),
)

pub Agrees-write :
    (next : ℕ → ℕ) (a d c x : ℕ) (ks : List ℕ)
    → Apart a ks
    → Agrees next c x ks
    → Agrees (replaced next a d) c x ks
Agrees-write next a d c x [] away h = tt
Agrees-write next a d c x (k ∷ ks) (ne, away) (f, h) =
    (λ e. ground (arith, f e), Agrees-write next a d c x ks away h)

pub Agrees-here : (next : ℕ → ℕ) (c : ℕ) (ks : List ℕ) → Agrees next c (next (node_ptr c)) ks
Agrees-here next c [] = tt
Agrees-here next c (k ∷ ks) = (λ e. ap (λ j. next (node_ptr j)) e, Agrees-here next c ks)

pub Tagged-mono : (first m m' : ℕ) (ks : List ℕ) → m ≤ m' → Tagged first m ks → Tagged first m' ks
Tagged-mono first m m' [] h t = tt
Tagged-mono first m m' (k ∷ ks) h (b, t) = (omega arith, Tagged-mono first m m' ks h t)

-- A key with a greater age is none of them.
pub Fresh-of_no :
    (first m key : ℕ) (ks : List ℕ) → m < age first key → Tagged first m ks → Fresh key ks
Fresh-of_no first m key [] h t = tt
Fresh-of_no first m key (k ∷ ks) h (b, t) =
    (λ e. absurd (omega (arith, ap (age first) e)), Fresh-of_no first m key ks h t)

pub Apart-of_live :
    (live : ℕ → Bool) (a : ℕ) (ks : List ℕ) → live a ≡ false → AllLive live ks → Apart a ks
Apart-of_live live a [] h t = tt
Apart-of_live live a (k ∷ ks) h (b, t) =
    (λ e. absurd (ground (arith, ap live e)), Apart-of_live live a ks h t)

pub AllLive-allocate :
    (live : ℕ → Bool) (a : ℕ) (ks : List ℕ) → AllLive live ks → AllLive (replaced live a true) ks
AllLive-allocate live a [] t = tt
AllLive-allocate live a (k ∷ ks) (b, t) = (ground arith, AllLive-allocate live a ks t)
