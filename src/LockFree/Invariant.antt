-- ===== src/LockFree/Invariant.antt =====
-- What every access keeps, with the keys from the top on as a list.
use chatting_server_single.Common.{
  ℕ, ◌^◌, ◌≤◌, ◌<◌, ◌≢◌, refl, sym, ◌∙◌, arith, List, [], replaced, replaced-cases,
}
use chatting_server_single.LockFree.{
  Shared, Pc, Move, make, System, run, empty, Reach, start, later,
}
use chatting_server_single.LockFree.Chain.{Chain, Distinct, Tagged, AllLive}
use chatting_server_single.LockFree.Knowledge.{owned, made, compared, Knows, after, made-compared}
use chatting_server_single.LockFree.Moves.{
  own_lem, others_lem, chain_lem, distinct_lem, tagged_lem, alive_lem, apart_lem, unseen_lem,
  unmade_lem,
}

pub record Inv (n : ℕ) (s : Shared) (pc : ℕ → Pc) (ks : List ℕ) : Type 0 where
  pub chain : Chain s.next s.top_key ks
  pub distinct : Distinct ks
  pub tagged : Tagged s.first_count s.increments ks
  pub alive : AllLive s.live ks
  pub knows : (i : ℕ) → i < n → Knows s ks (pc i)
  pub owners : (i j : ℕ) → i < n → j < n → i ≢ j → 0 < owned (pc i) → owned (pc i) ≢ owned (pc j)
  pub unseen : (i j : ℕ) → i < n → j < n → 0 < made (pc i) → made (pc i) ≢ compared (pc j)

module _ {n : ℕ} {s : Shared} {pc : ℕ → Pc} {ks : List ℕ} (inv : Inv n s pc ks) where
  open inv use {chain, distinct, tagged, alive}

  module _ (i : ℕ) {p' : Pc} {s' : Shared} (lt : i < n) (small : s'.increments < 2 ^ 16)
      (mv : Move s (pc i) s' p') where
    open inv use {knows, owners, unseen}

    Knows-all : (j : ℕ) → j < n → Knows s' (after mv ks) (replaced pc i p' j)
    Knows-all j in_range =
        replaced-cases (Knows s' (after mv ks)) pc i p' j
          (λ _. own_lem ks chain distinct tagged alive mv small (knows i lt))
          (λ ne.
            others_lem ks chain distinct tagged alive mv (knows i lt) (pc j) (knows j in_range)
              (owners j i in_range lt ne) (unseen i j lt in_range))

    -- Thread `i` and another one.
    apart : (j : ℕ) → j < n → j ≢ i → 0 < owned (pc j) → owned (pc j) ≢ owned p'
    apart j in_range ne =
        apart_lem ks chain distinct tagged alive mv (knows i lt) (pc j) (knows j in_range)
          (owners j i in_range lt ne)

    owners_all :
        (a b : ℕ)
        → a < n
        → b < n
        → a ≢ b
        → 0 < owned (replaced pc i p' a)
        → owned (replaced pc i p' a) ≢ owned (replaced pc i p' b)
    owners_all a b a_in b_in ne =
        replaced-cases (λ q. 0 < owned q → owned q ≢ owned (replaced pc i p' b)) pc i p' a
          (λ at_i.
            replaced-cases (λ q. 0 < owned p' → owned p' ≢ owned q) pc i p' b
              (λ at_i'. absurd (ne (at_i ∙ sym at_i')))
              (λ off pos e. apart b b_in off (rw (← e) pos) (sym e)))
          (λ off.
            replaced-cases (λ q. 0 < owned (pc a) → owned (pc a) ≢ owned q) pc i p' b
              (λ _. apart a a_in off) (λ _. owners a b a_in b_in ne))

    unseen_all :
        (a b : ℕ)
        → a < n
        → b < n
        → 0 < made (replaced pc i p' a)
        → made (replaced pc i p' a) ≢ compared (replaced pc i p' b)
    unseen_all a b a_in b_in =
        replaced-cases (λ q. 0 < made q → made q ≢ compared (replaced pc i p' b)) pc i p' a
          (λ _.
            replaced-cases (λ q. 0 < made p' → made p' ≢ compared q) pc i p' b
              (λ _. made-compared p')
              (λ _.
                unseen_lem ks chain distinct tagged alive mv small (knows i lt) (pc b)
                  (knows b b_in) (unseen i b lt b_in)))
          (λ _.
            replaced-cases (λ q. 0 < made (pc a) → made (pc a) ≢ compared q) pc i p' b
              (λ _.
                unmade_lem ks chain distinct tagged alive mv (knows i lt) (pc a) (knows a a_in)
                  (unseen a i a_in lt))
              (λ _. unseen a b a_in b_in))

    pub Move-Inv : Inv n s' (replaced pc i p') (after mv ks)
    Move-Inv = record {
      chain = chain_lem ks chain distinct tagged alive mv (knows i lt);
      distinct = distinct_lem ks chain distinct tagged alive mv (knows i lt);
      tagged = tagged_lem ks chain distinct tagged alive mv (knows i lt);
      alive = alive_lem ks chain distinct tagged alive mv (knows i lt);
      knows = Knows-all;
      owners = owners_all;
      unseen = unseen_all;
    }

Inv-empty : (n count : ℕ) → Inv n (empty count).shared (empty count).pc []
Inv-empty n count = record {
  chain = refl;
  distinct = tt;
  tagged = tt;
  alive = tt;
  knows = λ _ _. tt;
  owners = λ _ _ _ _ _ pos. absurd (omega (arith, pos));
  unseen = λ _ _ _ _ pos. absurd (omega (arith, pos));
}

pub count-le : {s s' : Shared} {p p' : Pc} → Move s p s' p' → s.increments ≤ s'.increments
count-le make = omega arith
count-le mv = omega arith

pub Reach-Inv :
    {n : ℕ} {s : System}
    → s.shared.increments < 2 ^ 16
    → Reach n s
    → (ks : List ℕ) × Inv n s.shared s.pc ks
Reach-Inv {n} small (start count) = ([], Inv-empty n count)
Reach-Inv small (later r (run i lt mv)) =
    let (ks, inv) = Reach-Inv (omega (arith, small, count-le mv)) r in
    (after mv ks, Move-Inv inv i lt small mv)
