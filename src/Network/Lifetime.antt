-- ===== src/Network/Lifetime.antt =====
-- A slot that is accepted, and what a lookup finds then.
use chatting_server_single.Common.{
  ℕ, ◌+◌, ◌^◌, ◌<◌, ◌≡◌, refl, ◌∙◌, ap, arith, List, [], ◌∷◌, ◌++◌, some, u32,
}
use chatting_server_single.Session.{Session, increment_io, init, has_cancel_io_flag}
use chatting_server_single.Network.{
  Network, get_index, make_session_id, at_slot, release, find_session,
}
use chatting_server_single.Network.Lookup.{at_slot_here, release-kept, returned, found_lem}
use chatting_server_single.Network.Ids.{make_session_id_lem}
use chatting_server_single.Network.Threads.{pending, recv_io, accept_one}

-- The network after a slot was taken from the stack and its first reception started.
started : ℕ → ℕ → ℕ → ℕ → List ℕ → Network → Network
started i socket port ip rest net =
    let id = make_session_id net.session_count i in
    record (at_slot i (init id socket port ip) net) {
      index_stack = rest;
      session_count = u32 (net.session_count + 1);
      connected = net.connected ++ id ∷ [];
    }

pub recv_io-open :
    (i : ℕ) (net : Network)
    → (net.sessions i).cancel_io_flag ≡ 0
    → recv_io pending i net ≡ at_slot i increment_io net
unfolding recv_io has_cancel_io_flag
recv_io-open i net e = rw e refl

module _ (i socket port ip : ℕ) (rest : List ℕ) (net : Network) (top : net.index_stack ≡ i ∷ rest)
    (gone : (net.sessions i).io_count ≡ 2 ^ 31) where
  abbrev fresh : Network
  fresh = started i socket port ip rest net

  fresh_here :
      fresh.sessions i ≡ init (make_session_id net.session_count i) socket port ip (net.sessions i)
  unfolding started
  fresh_here = at_slot_here i (init (make_session_id net.session_count i) socket port ip) net

  fresh_count : (fresh.sessions i).io_count ≡ 1
  unfolding init increment_io
  fresh_count = ap Session.io_count fresh_here ∙ omega arith

  fresh_open : (fresh.sessions i).cancel_io_flag ≡ 0
  unfolding init
  fresh_open = ap Session.cancel_io_flag fresh_here

  fresh_id : (fresh.sessions i).id ≡ make_session_id net.session_count i
  unfolding init
  fresh_id = ap Session.id fresh_here

  raised_count : ((at_slot i increment_io fresh).sessions i).io_count ≡ 2
  unfolding increment_io
  raised_count =
      ap Session.io_count (at_slot_here i increment_io fresh) ∙ omega (arith, fresh_count)

  accept_one-fresh : accept_one pending socket port ip net ≡ fresh
  unfolding accept_one started
  accept_one-fresh =
      rw (top, accept_one)
        (ap (release i) (recv_io-open i fresh fresh_open)
          ∙ release-kept i (at_slot i increment_io fresh) (omega (arith, raised_count))
              (omega (arith, raised_count))
          ∙ returned i fresh (omega (arith, fresh_count)))

  -- A connection that is accepted on the deleted slot on top of the stack, with an index below 2 ^
  -- 16, and whose first reception is started, holds the one reference of that reception, is
  -- announced once, and is found under its number.
  pub accept_one-find_session :
      i < 2 ^ 16
      → ((accept_one pending socket port ip net).index_stack ≡ rest)
        × ((accept_one pending socket port ip net).connected
            ≡ net.connected ++ make_session_id net.session_count i ∷ [])
        × (((accept_one pending socket port ip net).sessions i).io_count ≡ 1)
        × (find_session
              (make_session_id net.session_count i)
              (accept_one pending socket port ip net)
            ≡ (at_slot i increment_io (accept_one pending socket port ip net), some i))
  unfolding started
  accept_one-find_session low = rw accept_one-fresh (refl, refl, fresh_count, found)
    where
      index : get_index (make_session_id net.session_count i) ≡ i
      index = (make_session_id_lem net.session_count 0 i 0 low (omega arith)).0

      found :
          find_session (make_session_id net.session_count i) fresh
          ≡ (at_slot i increment_io fresh, some i)
      found =
          found_lem (make_session_id net.session_count i) fresh
            (omega (arith, ap (λ k. (fresh.sessions k).io_count) index, fresh_count))
            (ap (λ k. (fresh.sessions k).id) index ∙ fresh_id)
          ∙ ap (λ k. (at_slot k increment_io fresh, some k)) index
