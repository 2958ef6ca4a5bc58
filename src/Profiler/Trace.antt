-- ===== src/Profiler/Trace.antt =====
-- Calls of a thread, and what they measure under a name.
use chatting_server_single.Common.{
  ℕ, ◌+◌, ◌<◌, List, [], ◌∷◌, Option, none, some, ltb, ◌==◌, if◌then◌else◌, sub64,
}
use chatting_server_single.Profiler.{Profiles, start_profile, end_profile}

pub data Event : Type 0 where
  begun : ℕ → ℕ → Event
  ended : ℕ → ℕ → Event

unfoldable pub after : Event → Profiles → Profiles
unfolding start_profile end_profile
after (begun name t) s = (start_profile name t s).0
after (ended name t) s = (end_profile name t s).0

-- The calls of a thread, the oldest first.
unfoldable pub run : List Event → Profiles → Profiles
unfolding after
run [] s = s
run (e ∷ es) s = run es (after e s)

-- The reading of the clock at the last beginning that waits for its end, and the durations.
pub record Trace : Type 0 where
  pub pending : Option ℕ
  pub durations : List ℕ

abbrev pub traced_begun : ℕ → Trace → Option ℕ → Trace
traced_begun t tr none = record tr { pending = some t }
traced_begun t tr (some _) = tr

abbrev pub traced_ended : ℕ → Trace → Option ℕ → Trace
traced_ended t tr none = tr
traced_ended t tr (some t0) = record { pending = none; durations = sub64 t t0 ∷ tr.durations }

abbrev pub traced_step : ℕ → Event → Trace → Trace
traced_step name (begun n t) tr = if n == name then traced_begun t tr tr.pending else tr
traced_step name (ended n t) tr = if n == name then traced_ended t tr tr.pending else tr

-- What was measured under a name: from each beginning to the first end after it.
abbrev pub traced : ℕ → List Event → Trace → Trace
traced name [] tr = tr
traced name (e ∷ es) tr = traced name es (traced_step name e tr)

abbrev pub total : List ℕ → ℕ
total [] = 0
total (d ∷ ds) = d + total ds

abbrev pub largest : List ℕ → ℕ
largest [] = 0
largest (d ∷ ds) = if ltb (largest ds) d then d else largest ds

abbrev pub second_largest : List ℕ → ℕ
second_largest [] = 0
second_largest (d ∷ ds) =
    if ltb (largest ds) d
    then largest ds
    else if ltb (second_largest ds) d
    then d
    else second_largest ds

-- The clock never reads 0, which stands for no beginning.
abbrev pub AllPositive : List Event → Type 0
AllPositive [] = Unit
AllPositive (begun n t ∷ es) = (0 < t) × AllPositive es
AllPositive (ended n t ∷ es) = AllPositive es
