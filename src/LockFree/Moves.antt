-- ===== src/LockFree/Moves.antt =====
-- What one access does to the keys from the top on, to what its thread knows, and to what the
-- others know.
use chatting_server_single.Common.{ℕ, ◌+◌, ◌^◌, ◌<◌, ◌≢◌, refl, ap, arith, List}
use chatting_server_single.LockFree.{
  next_key, Shared, Pc, Move, allocate, make, load, link, insert, retry, free_load, free_link,
  free_make, start_again, look, look_null, follow, remove, miss,
}
use chatting_server_single.LockFree.Chain.{
  age, key_parts, key_positive, Chain, Distinct, Tagged, AllLive, Chain-write, Agrees-here,
  Tagged-mono, Fresh-of_no, Apart-of_live, AllLive-allocate,
}
use chatting_server_single.LockFree.Knowledge.{
  owned, made, compared, Keys, Knows, after, Knows-allocate, Knows-make, Knows-link, Knows-insert,
  Knows-remove, owned_lem, compared_lem, made_lem, top_lem, Fresh-top, remove_lem, remove-owned,
  remove-Chain,
}

-- A new key is none of those that are there, and nobody compares with it.
new_key_lem :
    (s : Shared) (ks : List ℕ) (a : ℕ)
    → Tagged s.first_count s.increments ks
    → s.increments + 1 < 2 ^ 16
    → a < 2 ^ 48
    → Keys (record s { increments = s.increments + 1 }) ks a (next_key a s)
new_key_lem s ks a tagged small low =
    let (same_ptr, same_number) = key_parts s.first_count a (s.increments + 1) low small in
    (
      same_ptr,
      omega (arith, same_number),
      Fresh-of_no s.first_count s.increments (next_key a s) ks (omega (arith, same_number)) tagged,
    )

new_key_unseen :
    (s : Shared) (ks : List ℕ) (a : ℕ) (q : Pc)
    → s.increments + 1 < 2 ^ 16
    → a < 2 ^ 48
    → Knows s ks q
    → 0 < next_key a s
    → next_key a s ≢ compared q
new_key_unseen s ks a q small low g here =
    let (_, same_number) = key_parts s.first_count a (s.increments + 1) low small in
    (λ e.
      absurd (
        omega
          (arith, same_number, ap (age s.first_count) e, compared_lem s ks q g (rw (← e) here))))

module _ {s : Shared} (ks : List ℕ) (chain : Chain s.next s.top_key ks) (distinct : Distinct ks)
    (tagged : Tagged s.first_count s.increments ks) (alive : AllLive s.live ks) where
  pub own_lem :
      {p p' : Pc} {s' : Shared} (mv : Move s p s' p')
      → s'.increments < 2 ^ 16
      → Knows s ks p
      → Knows s' (after mv ks) p'
  own_lem (allocate a pos low free) small h =
      (pos, low, ground arith, Apart-of_live s.live a ks free alive)
  own_lem (make {a}) small h = (h, new_key_lem s ks a tagged small h.1)
  own_lem load small h = h
  own_lem (link {a}) small h = (h.0, h.1, ground arith)
  own_lem (insert e) small h = tt
  own_lem (retry e) small h = (h.0, h.1)
  own_lem free_load small h = h
  own_lem free_link small h = (h, ground arith)
  own_lem (free_make {a}) small h = (h.0, new_key_lem s ks a tagged small h.0.1, h.1)
  own_lem (start_again e) small h = h.0
  own_lem (look there) small h = (there, top_lem s ks chain tagged there)
  own_lem (look_null e) small h = tt
  own_lem (follow {c}) small h = (h, Agrees-here s.next c ks)
  own_lem (remove {c} e) small h = remove_lem s ks c chain distinct alive e h.0.0
  own_lem (miss e) small h = tt

  pub others_lem :
      {p p' : Pc} {s' : Shared} (mv : Move s p s' p')
      → Knows s ks p
      → (q : Pc) → Knows s ks q
      → (0 < owned q → owned q ≢ owned p)
      → (0 < made p → made p ≢ compared q)
      → Knows s' (after mv ks) q
  others_lem (allocate a pos low free) h q g apart other = Knows-allocate s ks q a g
  others_lem make h q g apart other = Knows-make s ks q g
  others_lem free_make h q g apart other = Knows-make s ks q g
  others_lem (free_link {a} {c}) h q g apart other =
      Knows-link s ks q a c h.3 (ground (arith, h.0)) g
  others_lem (link {a} {k} {c}) h q g apart other =
      Knows-link s ks q a c h.0.3 (ground (arith, h.0.0)) g
  others_lem (insert {a} {k} e) h q g apart other =
      Knows-insert s ks q k (λ pos. rw h.1.0 (apart pos)) (other (key_positive k (rw h.1.0 h.0.0)))
        g
  others_lem (remove {c} {x} e) h q g apart other = Knows-remove s x ks q g
  others_lem mv h q g apart other = g

  pub chain_lem :
      {p p' : Pc} {s' : Shared} (mv : Move s p s' p')
      → Knows s ks p
      → Chain s'.next s'.top_key (after mv ks)
  chain_lem (free_link {a} {c}) h = Chain-write s.next a c s.top_key ks h.3 chain
  chain_lem (link {a} {k} {c}) h = Chain-write s.next a c s.top_key ks h.0.3 chain
  chain_lem (insert {a} {k} {c} e) h = (refl, rw h.1.0 h.0.0, rw (h.1.0, h.2, ← e) chain)
  chain_lem (remove {c} {x} e) h = remove-Chain s ks c x chain e h.0.0 h.1
  chain_lem mv h = chain

  pub distinct_lem :
      {p p' : Pc} {s' : Shared} (mv : Move s p s' p') → Knows s ks p → Distinct (after mv ks)
  distinct_lem (insert e) h = (rw h.1.0 h.0.3, distinct)
  distinct_lem (remove e) h = ground (arith, distinct)
  distinct_lem mv h = distinct

  pub tagged_lem :
      {p p' : Pc} {s' : Shared} (mv : Move s p s' p')
      → Knows s ks p
      → Tagged s'.first_count s'.increments (after mv ks)
  tagged_lem make h =
      Tagged-mono s.first_count s.increments (s.increments + 1) ks (omega arith) tagged
  tagged_lem free_make h =
      Tagged-mono s.first_count s.increments (s.increments + 1) ks (omega arith) tagged
  tagged_lem (insert e) h = (h.1.1, tagged)
  tagged_lem (remove e) h = ground (arith, tagged)
  tagged_lem mv h = tagged

  pub alive_lem :
      {p p' : Pc} {s' : Shared} (mv : Move s p s' p') → Knows s ks p → AllLive s'.live (after mv ks)
  alive_lem (allocate a pos low free) h = AllLive-allocate s.live a ks alive
  alive_lem (insert e) h = (rw h.1.0 h.0.2, alive)
  alive_lem (remove e) h = ground (arith, alive)
  alive_lem mv h = alive

  -- Its node is no other thread's.
  pub apart_lem :
      {p p' : Pc} {s' : Shared} (mv : Move s p s' p')
      → Knows s ks p
      → (q : Pc) → Knows s ks q
      → (0 < owned q → owned q ≢ owned p)
      → 0 < owned q
      → owned q ≢ owned p'
  apart_lem (allocate a pos low free) h q g apart here =
      ground (arith, owned_lem s ks q g here, ap s.live)
  apart_lem (insert e) h q g apart here = omega (arith, here)
  apart_lem (remove {c} e) h q g apart here =
      remove-owned s ks c (owned q) chain e h.0.0 (owned_lem s ks q g here).1
  apart_lem (look there) h q g apart here = omega (arith, here)
  apart_lem (look_null e) h q g apart here = omega (arith, here)
  apart_lem (follow) h q g apart here = omega (arith, here)
  apart_lem (miss e) h q g apart here = omega (arith, here)
  apart_lem mv h q g apart here = apart here

  -- Its key is compared with by nobody.
  pub unseen_lem :
      {p p' : Pc} {s' : Shared} (mv : Move s p s' p')
      → s'.increments < 2 ^ 16
      → Knows s ks p
      → (q : Pc) → Knows s ks q
      → (0 < made p → made p ≢ compared q)
      → 0 < made p'
      → made p' ≢ compared q
  unseen_lem (make {a}) small h q g other here = new_key_unseen s ks a q small h.1 g here
  unseen_lem (free_make {a}) small h q g other here = new_key_unseen s ks a q small h.0.1 g here
  unseen_lem load small h q g other here = other here
  unseen_lem link small h q g other here = other here
  unseen_lem (retry e) small h q g other here = other here
  unseen_lem mv small h q g other here = absurd (omega (arith, here))

  pub unmade_lem :
      {p p' : Pc} {s' : Shared} (mv : Move s p s' p')
      → Knows s ks p
      → (q : Pc) → Knows s ks q
      → (0 < made q → made q ≢ compared p)
      → 0 < made q
      → made q ≢ compared p'
  unmade_lem (look there) h q g other here =
      Fresh-top s ks (made q) chain there (made_lem s ks q g here).2
  unmade_lem follow h q g other here = other here
  unmade_lem mv h q g other here = omega (arith, here)
