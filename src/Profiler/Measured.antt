-- ===== src/Profiler/Measured.antt =====
-- What is kept under a name, against all that was measured under it.
use chatting_server_single.Common.{
  ℕ, ◌+◌, ◌-◌, ◌%◌, ◌^◌, ◌≤◌, ◌<◌, ◌≡◌, ◌≢◌, refl, arith, List, [], ◌∷◌, Option, none, some, false,
  ◌==◌, if◌then◌else◌, sub64, lookup, lookup-assign_self, lookup-assign_ne, length, ==_iff,
}
use native.Mathlib.Decide.{ℕ_discrete}
use chatting_server_single.Profiler.{
  ProfileStruct, new_profile, start, add_duration, update, Profiles, start_profile, end_profile,
  average,
}
use chatting_server_single.Profiler.Trace.{
  Event, after, run, Trace, traced_begun, traced_ended, traced_step, traced, total, largest,
  second_largest, AllPositive, begun, ended,
}

abbrev pub Waits : ℕ → Option ℕ → Type 0
Waits s none = s ≡ 0
Waits s (some t) = (s ≡ t) × (0 < t)

pub record Summary (p : ProfileStruct) (tr : Trace) : Type 0 where
  pub waits : Waits p.start_time tr.pending
  pub sum : (p.sum + p.max0 + p.max1) % 2 ^ 64 ≡ total tr.durations % 2 ^ 64
  pub max1 : p.max1 ≡ largest tr.durations
  pub max0 : p.max0 ≡ second_largest tr.durations
  pub ordered : p.max0 ≤ p.max1
  pub min0 : p.min0 ≡ 0
  pub min1 : p.min1 ≡ 0
  pub bounded : p.sum < 2 ^ 64
  pub count : p.count ≡ length tr.durations % 2 ^ 64

abbrev value_or_new : Option ProfileStruct → ProfileStruct
value_or_new none = new_profile
value_or_new (some p) = p

abbrev pub found : ℕ → Profiles → ProfileStruct
found name s = value_or_new (lookup name s)

found-start_profile_self :
    (name t : ℕ) (s : Profiles)
    → found name (start_profile name t s).0
      ≡ (if (found name s).start_time == 0 then start t (found name s) else found name s)
unfolding start_profile
found-start_profile_self name t s =
    ground (arith, lookup-assign_self name (start t (found name s)) s)

found-start_profile_ne :
    (name n t : ℕ) (s : Profiles) → n ≢ name → found name (start_profile n t s).0 ≡ found name s
unfolding start_profile
found-start_profile_ne name n t s ne =
    ground (arith, lookup-assign_ne n name (start t (found n s)) s)

found-end_profile_self :
    (name t : ℕ) (s : Profiles) → found name (end_profile name t s).0 ≡ update t (found name s)
unfolding end_profile update
found-end_profile_self name t s =
    ground (arith, lookup-assign_self name (update t (found name s)) s)

found-end_profile_ne :
    (name n t : ℕ) (s : Profiles) → n ≢ name → found name (end_profile n t s).0 ≡ found name s
unfolding end_profile
found-end_profile_ne name n t s ne =
    ground (arith, lookup-assign_ne n name (update t (found n s)) s)

unequal : (a b : ℕ) → a ≢ b → (a == b) ≡ false
unequal a b ne = ground arith

start-Summary :
    (p : ProfileStruct) (tr : Trace) (t : ℕ)
    → 0 < t
    → Summary p tr
    → (o : Option ℕ) → tr.pending ≡ o
    → Summary (if p.start_time == 0 then start t p else p) (traced_begun t tr o)
unfolding start
start-Summary p tr t positive v none e =
    let idle : p.start_time ≡ 0 = (rw e at v.waits) in
    rw ((==_iff p.start_time 0).1 idle) (record {
      waits = (refl, positive);
      sum = v.sum;
      max1 = v.max1;
      max0 = v.max0;
      ordered = v.ordered;
      min0 = v.min0;
      min1 = v.min1;
      bounded = v.bounded;
      count = v.count;
    })
start-Summary p tr t positive v (some t0) e =
    let busy : (p.start_time ≡ t0) × (0 < t0) = (rw e at v.waits) in
    let test : (p.start_time == 0) ≡ false = ground arith in rw test v

-- A duration more.
add-Summary :
    (p : ProfileStruct) (tr : Trace) (t t0 : ℕ)
    → Summary p tr
    → tr.pending ≡ some t0
    → Summary (update t p) (record { pending = none; durations = sub64 t t0 ∷ tr.durations })
unfolding update add_duration
add-Summary p tr t t0 v e =
    let busy : (p.start_time ≡ t0) × (0 < t0) = (rw e at v.waits) in
    let test : (p.start_time == 0) ≡ false = ground arith in
    rw (test, busy.0)
      (record {
        waits = refl;
        sum = ground (arith, v.sum, v.max0, v.max1, v.min0);
        max1 = ground (arith, v.max0, v.max1, v.min0, v.ordered);
        max0 = ground (arith, v.max0, v.max1, v.min0, v.ordered);
        ordered = ground (arith, v.ordered, v.min0);
        min0 = ground (arith, v.min0);
        min1 = ground (arith, v.min0, v.min1);
        bounded = ground (arith, v.bounded, v.min0);
        count = ground (arith, v.count);
      })

update-Summary :
    (p : ProfileStruct) (tr : Trace) (t : ℕ)
    → Summary p tr
    → (o : Option ℕ) → tr.pending ≡ o
    → Summary (update t p) (traced_ended t tr o)
unfolding update
update-Summary p tr t v none e =
    let idle : p.start_time ≡ 0 = (rw e at v.waits) in rw ((==_iff p.start_time 0).1 idle) v
update-Summary p tr t v (some t0) e = add-Summary p tr t t0 v e

step-Summary :
    (name : ℕ) (e : Event) (s : Profiles) (tr : Trace)
    → AllPositive (e ∷ [])
    → Summary (found name s) tr
    → Summary (found name (after e s)) (traced_step name e tr)
unfolding after
step-Summary name (begun n t) s tr positive v = elim (ℕ_discrete n name) [
  | yes same ↦
      rw (same, (==_iff name name).1 refl)
        (rw (found-start_profile_self name t s)
          (start-Summary (found name s) tr t positive.0 v tr.pending refl))
  | no other ↦ rw (unequal n name other) (rw (found-start_profile_ne name n t s other) v)
]
step-Summary name (ended n t) s tr positive v = elim (ℕ_discrete n name) [
  | yes same ↦
      rw (same, (==_iff name name).1 refl)
        (rw (found-end_profile_self name t s)
          (update-Summary (found name s) tr t v tr.pending refl))
  | no other ↦ rw (unequal n name other) (rw (found-end_profile_ne name n t s other) v)
]

run-Summary :
    (name : ℕ) (es : List Event) (s : Profiles) (tr : Trace)
    → AllPositive es
    → Summary (found name s) tr
    → Summary (found name (run es s)) (traced name es tr)
unfolding run
run-Summary name [] s tr positive v = v
run-Summary name (begun n t ∷ es) s tr positive v =
    run-Summary name es (after (begun n t) s) (traced_step name (begun n t) tr) positive.1
      (step-Summary name (begun n t) s tr (positive.0, tt) v)
run-Summary name (ended n t ∷ es) s tr positive v =
    run-Summary name es (after (ended n t) s) (traced_step name (ended n t) tr) positive
      (step-Summary name (ended n t) s tr tt v)

largest-le : (ds : List ℕ) → largest ds + second_largest ds ≤ total ds
largest-le [] = omega arith
largest-le (d ∷ ds) = ground (arith, largest-le ds)

abbrev pub no_trace : Trace
no_trace = record { pending = none; durations = [] }

-- The sum of all but the two largest.
abbrev pub rest_of : List ℕ → ℕ
rest_of ds = total ds - largest ds - second_largest ds

abbrev pub durations_of : ℕ → List Event → List ℕ
durations_of name es = (traced name es no_trace).durations

unfoldable pub kept : ℕ → List Event → ProfileStruct
unfolding run
kept name es = found name (run es [])

-- A thread begins and ends measurements under any names, in any order, the clock never reads 0 at a
-- beginning, and the durations under a name, from each beginning to the first end after it, are less
-- than 2 ^ 64 all together. Then under this name it keeps their number modulo 2 ^ 64, the largest
-- and the second largest one, and the sum of the others; the smallest ones it takes for 0. The
-- dividend of the average is that sum less the second largest duration, modulo 2 ^ 64.
pub profile_lem :
    (name : ℕ) (es : List Event)
    → AllPositive es
    → total (durations_of name es) < 2 ^ 64
    → ((kept name es).count ≡ length (durations_of name es) % 2 ^ 64)
      × ((kept name es).max1 ≡ largest (durations_of name es))
      × ((kept name es).max0 ≡ second_largest (durations_of name es))
      × ((kept name es).sum ≡ rest_of (durations_of name es))
      × ((kept name es).min0 ≡ 0)
      × ((kept name es).min1 ≡ 0)
      × ((average (kept name es)).0
          ≡ sub64 (rest_of (durations_of name es)) (second_largest (durations_of name es)))
unfolding average kept
profile_lem name es positive small =
    let ds = durations_of name es in
    let v = run-Summary name es [] no_trace positive record {
      waits = refl;
      sum = refl;
      max1 = refl;
      max0 = refl;
      ordered = omega arith;
      min0 = refl;
      min1 = refl;
      bounded = omega arith;
      count = refl;
    } in
    let sum : (found name (run es [])).sum ≡ rest_of ds =
      omega (arith, v.sum, v.max0, v.max1, v.bounded, largest-le ds) in
    (
      v.count,
      v.max1,
      v.max0,
      sum,
      v.min0,
      v.min1,
      omega (arith, sum, v.min0, v.max0, small, largest-le ds),
    )
