-- ===== src/Network/Lookup.antt =====
-- What `findSession` finds, and that it leaves no trace where it finds nothing.
use mathlib.Core.Bool.{false≢true}
use chatting_server_single.Common.{
  ℕ, ◌+◌, ◌-◌, ◌^◌, ◌≤◌, ◌<◌, ◌≡◌, ◌≢◌, ◌⊎◌, inl, inr, refl, ◌∙◌, sym, ap, arith, Bool, true, false,
  not, Option, none, some, leb, le→leb, lt→leb, ◌==◌, ==_iff, Bool-cases, if◌then◌else◌, u32,
}
use chatting_server_single.Session.{Session, increment_io, decrement_io}
use chatting_server_single.Network.{
  Network, get_index, at_slot, release, check_session, find_session,
}

-- A session with at least one reference, or with the mark of a deleted one; there is room for one
-- reference more.
unfoldable pub Alive : Session → Type 0
Alive s = (0 < s.io_count) × (s.io_count + 1 < 2 ^ 31)

unfoldable pub Deleted : Session → Type 0
Deleted s = (2 ^ 31 ≤ s.io_count) × (s.io_count + 1 < 2 ^ 32)

pub at_slot_here :
    (i : ℕ) (f : Session → Session) (net : Network)
    → (at_slot i f net).sessions i ≡ f (net.sessions i)
at_slot_here i f net = rw ((==_iff i i).1 refl) refl

check_session-found :
    (i id : ℕ) (net : Network)
    → (net.sessions i).io_count < 2 ^ 31
    → (net.sessions i).id ≡ id
    → check_session i id net ≡ (net, some i)
unfolding check_session
check_session-found i id net low own =
    rw (lt→leb (2 ^ 31) (net.sessions i).io_count low, (==_iff (net.sessions i).id id).1 own) refl

-- The reference given back, and nothing found.
abbrev given_back : ℕ → Network → Network × Option ℕ
given_back i net = (release i net, none)

check_session-refused :
    (i id : ℕ) (net : Network)
    → (2 ^ 31 ≤ (net.sessions i).io_count) ⊎ ((net.sessions i).id ≢ id)
    → check_session i id net ≡ (release i net, none)
unfolding check_session
check_session-refused i id net (inl high) = rw (le→leb (2 ^ 31) (net.sessions i).io_count high) refl
check_session-refused i id net (inr ne) = rw other (either (leb (2 ^ 31) (net.sessions i).io_count))
  where
    other : ((net.sessions i).id == id) ≡ false
    other = ground arith

    either :
        (b : Bool)
        → (if b then given_back i net else if not false then given_back i net else (net, some i))
          ≡ given_back i net
    either true = refl
    either false = refl

pub release-kept :
    (i : ℕ) (net : Network)
    → 2 ≤ (net.sessions i).io_count
    → (net.sessions i).io_count < 2 ^ 32
    → release i net ≡ at_slot i decrement_io net
unfolding release decrement_io
release-kept i net low high = rw kept refl
  where
    kept : (u32 ((net.sessions i).io_count + 2 ^ 32 - 1) == 0) ≡ false
    kept = ground arith

decrement_io-increment_io :
    (s : Session) → s.io_count + 1 < 2 ^ 32 → decrement_io (increment_io s) ≡ s
unfolding increment_io decrement_io
decrement_io-increment_io s room = ap (λ k. record s { io_count = k }) (omega arith)

-- A reference taken and given back.
pub returned :
    (i : ℕ) (net : Network)
    → (net.sessions i).io_count + 1 < 2 ^ 32
    → at_slot i decrement_io (at_slot i increment_io net) ≡ net
returned i net room = λ t. record net { sessions = λ j. same j t }
  where
    same :
        (j : ℕ) → (at_slot i decrement_io (at_slot i increment_io net)).sessions j ≡ net.sessions j
    same j = elim (Bool-cases (j == i)) [
      | inl e ↦ rw e (
          decrement_io-increment_io (net.sessions j)
            (omega (arith, room, ap (λ k. (net.sessions k).io_count) ((==_iff j i).0 e))))
      | inr e ↦ rw e refl
    ]

abbrev pub slot_of : ℕ → Network → Session
slot_of id net = net.sessions (get_index id)

module _ (id : ℕ) (net : Network) where
  abbrev raised : Network
  raised = at_slot (get_index id) increment_io net

  count-raised :
      (slot_of id net).io_count + 1 < 2 ^ 32
      → (slot_of id raised).io_count ≡ (slot_of id net).io_count + 1
  unfolding increment_io
  count-raised room =
      ap Session.io_count (at_slot_here (get_index id) increment_io net) ∙ omega arith

  id-raised : (slot_of id raised).id ≡ (slot_of id net).id
  unfolding increment_io
  id-raised = ap Session.id (at_slot_here (get_index id) increment_io net)

  pub found_lem :
      (slot_of id net).io_count + 1 < 2 ^ 31
      → (slot_of id net).id ≡ id
      → find_session id net ≡ (raised, some (get_index id))
  unfolding find_session
  found_lem low own =
      check_session-found (get_index id) id raised (omega (arith, count-raised (omega arith)))
        (id-raised ∙ own)

  not_found_lem :
      0 < (slot_of id net).io_count
      → (slot_of id net).io_count + 1 < 2 ^ 32
      → (2 ^ 31 ≤ (slot_of id net).io_count) ⊎ ((slot_of id net).id ≢ id)
      → find_session id net ≡ (net, none)
  unfolding find_session
  not_found_lem low room h =
      check_session-refused (get_index id) id raised (why h)
      ∙ ap (λ n. (n, none))
          (release-kept (get_index id) raised (omega (arith, count-raised room))
              (omega (arith, count-raised room))
            ∙ returned (get_index id) net room)
    where
      why :
          (2 ^ 31 ≤ (slot_of id net).io_count) ⊎ ((slot_of id net).id ≢ id)
          → (2 ^ 31 ≤ (slot_of id raised).io_count) ⊎ ((slot_of id raised).id ≢ id)
      why (inl high) = inl (omega (arith, count-raised room))
      why (inr ne) = inr (λ own. ne (sym id-raised ∙ own))

  -- The slot of a session that is alive and bears the number looked for is found, with one
  -- reference more. A slot whose session is deleted, or is alive under another number, is not, and
  -- everything is left as it was.
  pub find_session_lem :
      Alive (slot_of id net) ⊎ Deleted (slot_of id net)
      → ((Alive (slot_of id net) × ((slot_of id net).id ≡ id))
          × (find_session id net ≡ (at_slot (get_index id) increment_io net, some (get_index id))))
        ⊎ ((Deleted (slot_of id net) ⊎ ((slot_of id net).id ≢ id))
            × (find_session id net ≡ (net, none)))
  unfolding Alive Deleted
  find_session_lem (inr gone) =
      inr (inl gone, not_found_lem (omega (arith, gone)) (omega (arith, gone)) (inl gone.0))
  find_session_lem (inl alive) = elim (Bool-cases ((slot_of id net).id == id)) [
    | inl e ↦
        let own = (==_iff (slot_of id net).id id).0 e in
        inl ((alive, own), found_lem (omega (arith, alive)) own)
    | inr e ↦
        let ne : (slot_of id net).id ≢ id =
          λ own. false≢true (sym e ∙ (==_iff (slot_of id net).id id).1 own) in
        inr (inr ne, not_found_lem alive.0 (omega (arith, alive)) (inr ne))
  ]
