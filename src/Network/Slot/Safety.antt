-- ===== src/Network/Slot/Safety.antt =====
-- What holds of a slot in every reachable state, whatever the order of the accesses.
use chatting_server_single.Common.{
  ℕ, ◌^◌, ◌≤◌, ◌<◌, ◌≡◌, refl, ap, ◌∙◌, arith, weight, weight-ge, weight-none,
}
use chatting_server_single.Network.Slot.{Pc, idle, holder, System, Reach, AllAnnounced}
use chatting_server_single.Network.Slot.Invariant.{
  references, moves, deletes, announces, references-le, Reach-Inv,
}

-- Less than 2 ^ 31 threads and operations run over a slot, interleaved in any order, and none looks
-- it up before the first session has begun on it. While one of
-- them holds a reference to the session with a number, as `findSession` or `acceptThread` got it,
-- the slot bears this number, its count is no more than the number of threads and bears no mark,
-- and its index is not on the stack: the session is neither deleted nor replaced.
pub held_lem :
    {n : ℕ} {s : System}
    → n < 2 ^ 31
    → (r : Reach n s) → AllAnnounced r
    → (i id : ℕ) → i < n
    → s.pc i ≡ holder id
    → (s.slot.id ≡ id) × (0 < s.slot.io_count) × (s.slot.io_count ≤ n) × (s.slot.stacked ≡ 0)
held_lem {n} {s} few r a i id lt here =
    let inv = Reach-Inv few r a in
    ground
      (arith, inv.knows i lt, inv.after, weight-ge references s.pc i n lt, references-le n s.pc)

-- When a session has begun, no thread of less than 2 ^ 31 looked the slot up before the first one
-- had, all references have been given back and no call is under way, then, whatever the order of
-- the accesses was, the slot has been deleted: its index is on the stack, its count is the mark and nothing but it, and
-- `OnDisconnect` was called as often as a session began.
pub at_rest_lem :
    {n : ℕ} {s : System}
    → n < 2 ^ 31
    → (r : Reach n s) → AllAnnounced r
    → 0 < s.slot.connected
    → ((i : ℕ) → i < n → s.pc i ≡ idle)
    → (s.slot.stacked ≡ 1) × (s.slot.io_count ≡ 2 ^ 31) × (s.slot.disconnected ≡ s.slot.connected)
at_rest_lem {n} {s} few r a used rest =
    let inv = Reach-Inv few r a in
    ground (
      arith,
      inv.one,
      inv.fate,
      inv.after,
      inv.watched,
      none_of references refl,
      none_of moves refl,
      none_of deletes refl,
      none_of announces refl,
    )
  where
    none_of : (w : Pc → ℕ) → w idle ≡ 0 → weight w s.pc n ≡ 0
    none_of w e = weight-none w s.pc n (λ i lt. ap w (rest i lt) ∙ e)
