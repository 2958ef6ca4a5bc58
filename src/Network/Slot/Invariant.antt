-- ===== src/Network/Slot/Invariant.antt =====
-- What every access keeps: the count is the number of references, with the mark while the slot is
-- nobody's session.
use chatting_server_single.Common.{
  ℕ, ◌+◌, ◌-◌, ◌*◌, ◌^◌, ◌≤◌, ◌<◌, ◌≡◌, ◌≢◌, refl, arith, u32, replaced, weight, weight-replaced,
  weight-ge, weight-two, weight-le, weight-none,
}
use chatting_server_single.Network.Slot.{
  Slot, Pc, idle, found, holder, dropping, zeroed, closing, pushed, popped, named, counted, Move,
  look_live, look_deleted, same, lend, drop, drop_last, exchange, keep, pop_index, System, run,
  unused, Reach, start, later, Announced, AllAnnounced,
}

-- The references that a thread holds.
abbrev pub references : Pc → ℕ
references (found _) = 1
references (holder _) = 1
references dropping = 1
references (counted _) = 1
references _ = 0

-- The threads between two owners of the slot.
abbrev pub moves : Pc → ℕ
moves closing = 1
moves popped = 1
moves (named _) = 1
moves (counted _) = 1
moves _ = 0

abbrev pub deletes : Pc → ℕ
deletes zeroed = 1
deletes _ = 0

-- The sessions that are closed, but not yet announced as such.
abbrev pub announces : Pc → ℕ
announces closing = 1
announces pushed = 1
announces _ = 0

-- One while the slot is no session's, on the stack or on its way there or away.
abbrev pub vacant : ℕ → Slot → (ℕ → Pc) → ℕ
vacant n s pc = s.stacked + weight moves pc n

-- What a thread knows.
abbrev pub Knows : ℕ → Slot → Pc → Type 0
Knows v s idle = Unit
Knows v s popped = Unit
Knows v s (named id) = s.id ≡ id
Knows v s (counted id) = s.id ≡ id
Knows v s (found id) = (v ≡ 0) × (0 < s.connected)
Knows v s (holder id) = (v ≡ 0) × (0 < s.connected) × (s.id ≡ id)
Knows v s _ = 0 < s.connected

pub record Inv (n : ℕ) (s : Slot) (pc : ℕ → Pc) : Type 0 where
  pub few : n < 2 ^ 31
  pub one : vacant n s pc ≤ 1
  pub before : s.connected ≡ 0 → (s.io_count ≡ weight references pc n) × (vacant n s pc ≡ 1)
  pub after : 0 < s.connected → s.io_count ≡ vacant n s pc * 2 ^ 31 + weight references pc n
  pub fate : s.connected + vacant n s pc ≡ s.disconnected + weight announces pc n + 1
  pub watched : 0 < s.connected → vacant n s pc ≡ 0 → s.io_count ≡ 0 → 0 < weight deletes pc n
  pub knows : (i : ℕ) → i < n → Knows (vacant n s pc) s (pc i)

pub references-le : (n : ℕ) (pc : ℕ → Pc) → weight references pc n ≤ n
references-le n pc = weight-le references (λ p. ground arith) pc n

module _ {n : ℕ} {s : Slot} {pc : ℕ → Pc} (inv : Inv n s pc) (i : ℕ) where
  open inv use {few, one, before, after, fate, watched, knows}

  -- Thread `i` goes from `p` to `p'`.
  record Shift (p p' : Pc) : Type 0 where
    here : pc i ≡ p
    below : i < n
    own : Knows (vacant n s pc) s p
    refs :
        weight references (replaced pc i p') n + references p
        ≡ weight references pc n + references p'
    moving : weight moves (replaced pc i p') n + moves p ≡ weight moves pc n + moves p'
    deleting : weight deletes (replaced pc i p') n + deletes p ≡ weight deletes pc n + deletes p'
    announcing :
        weight announces (replaced pc i p') n + announces p ≡ weight announces pc n + announces p'
    refs_ge : references p ≤ weight references pc n
    moves_ge : moves p ≤ weight moves pc n
    room : (weight references pc n ≤ n) × (weight references (replaced pc i p') n ≤ n)

  shift : i < n → (p' : Pc) → Shift (pc i) p'
  shift lt p' = record {
    here = refl;
    below = lt;
    own = knows i lt;
    refs = weight-replaced references pc i p' n lt;
    moving = weight-replaced moves pc i p' n lt;
    deleting = weight-replaced deletes pc i p' n lt;
    announcing = weight-replaced announces pc i p' n lt;
    refs_ge = weight-ge references pc i n lt;
    moves_ge = weight-ge moves pc i n lt;
    room = (references-le n pc, references-le n (replaced pc i p'));
  }

  -- What a move asks for, for clauses that do not name it.
  abbrev Guard : {s' : Slot} {p p' : Pc} → Move n s pc p s' p' → Type 0
  Guard (look_live _ low) = (0 < s.connected) × (u32 (s.io_count + 1) < 2 ^ 31)
  Guard (look_deleted high) = (0 < s.connected) × (2 ^ 31 ≤ u32 (s.io_count + 1))
  Guard (same {id} e) = s.id ≡ id
  Guard (lend j id lt e) = (vacant n s pc ≡ 0) × (0 < s.connected) × (s.id ≡ id)
  Guard (drop left) = u32 (s.io_count + 2 ^ 32 - 1) ≢ 0
  Guard (drop_last none_left) = u32 (s.io_count + 2 ^ 32 - 1) ≡ 0
  Guard (exchange e) = s.io_count ≡ 0
  Guard (keep ne) = s.io_count ≢ 0
  Guard (pop_index there) = 0 < s.stacked
  Guard _ = Unit

  Guard-of : {s' : Slot} {p p' : Pc} (mv : Move n s pc p s' p') → Announced mv → Guard mv
  Guard-of (look_live _ low) used = (used, low)
  Guard-of (look_deleted high) used = (used, high)
  Guard-of (same e) a = e
  Guard-of (lend j id lt e) a = ground (arith, knows j lt)
  Guard-of (drop left) a = left
  Guard-of (drop_last none_left) a = none_left
  Guard-of (exchange e) a = e
  Guard-of (keep ne) a = ne
  Guard-of (pop_index there) a = there
  Guard-of _ a = tt

  Move-counts :
      {p p' : Pc} {s' : Slot} (mv : Move n s pc p s' p') → Announced mv → Shift p p' → record {
        one : vacant n s' (replaced pc i p') ≤ 1;
        before :
            s'.connected ≡ 0
            → (s'.io_count ≡ weight references (replaced pc i p') n)
              × (vacant n s' (replaced pc i p') ≡ 1);
        after :
            0 < s'.connected
            → s'.io_count
              ≡ vacant n s' (replaced pc i p') * 2 ^ 31 + weight references (replaced pc i p') n;
        fate :
            s'.connected + vacant n s' (replaced pc i p')
            ≡ s'.disconnected + weight announces (replaced pc i p') n + 1;
        watched :
            0 < s'.connected
            → vacant n s' (replaced pc i p') ≡ 0
            → s'.io_count ≡ 0
            → 0 < weight deletes (replaced pc i p') n;
      }
  Move-counts (same e) a f = ground arith
  Move-counts mv a f = ground (arith, Guard-of mv a)

  Move-Knows :
      {p p' : Pc} {s' : Slot} (mv : Move n s pc p s' p')
      → Announced mv
      → Shift p p'
      → (j : ℕ) → j < n
      → Knows (vacant n s' (replaced pc i p')) s' (replaced pc i p' j)
  Move-Knows (same e) a f j lt = ground (arith, knows j lt)
  Move-Knows mv a f j lt = ground (
    arith,
    Guard-of mv a,
    knows j lt,
    weight-ge references pc j n lt,
    weight-ge moves pc j n lt,
    weight-two moves pc i j n,
  )

  Move-Inv :
      {p' : Pc} {s' : Slot}
      → i < n
      → (mv : Move n s pc (pc i) s' p') → Announced mv
      → Inv n s' (replaced pc i p')
  Move-Inv {p'} lt mv a =
      let f = shift lt p' in
      let counts = Move-counts mv a f in
      record {
        few = few;
        one = counts.one;
        before = counts.before;
        after = counts.after;
        fate = counts.fate;
        watched = counts.watched;
        knows = Move-Knows mv a f;
      }

Inv-unused : (n : ℕ) → n < 2 ^ 31 → Inv n unused.slot unused.pc
Inv-unused n few = record {
  few = few;
  one = omega (arith, none_of moves refl);
  before = λ _. (omega (arith, none_of references refl), omega (arith, none_of moves refl));
  after = λ used. absurd (omega (arith, used));
  fate = omega (arith, none_of moves refl, none_of announces refl);
  watched = λ used. absurd (omega (arith, used));
  knows = λ _ _. tt;
}
  where
    none_of : (w : Pc → ℕ) → w idle ≡ 0 → weight w (λ _. idle) n ≡ 0
    none_of w e = weight-none w (λ _. idle) n (λ _ _. e)

pub Reach-Inv :
    {n : ℕ} {s : System} → n < 2 ^ 31 → (r : Reach n s) → AllAnnounced r → Inv n s.slot s.pc
Reach-Inv {n} few start a = Inv-unused n few
Reach-Inv few (later r (run i lt mv)) a = Move-Inv (Reach-Inv few r a.0) i lt mv a.1
