-- ===== src/Profiler.antt =====
-- lib/monitoringTools/profiler/profiler.h and profiler.cpp: the times that a thread has measured, by
-- the name of what it measured. A name is known by a number; the clock's readings are arguments.
mod Measured
mod Tests
mod Trace
use chatting_server_single.Common.{
  ℕ, ◌+◌, ◌-◌, ◌^◌, List, [], ◌∷◌, Option, none, some, Bool, true, false, ltb, ◌==◌, not,
  if◌then◌else◌, u64, sub64, lookup, assign,
}

-- `min0`, `min1`, `max0` and `max1` are the entries of `_min` and `_max`.
pub record ProfileStruct : Type 0 where
  pub start_time : ℕ
  pub sum : ℕ
  pub min0 : ℕ
  pub min1 : ℕ
  pub max0 : ℕ
  pub max1 : ℕ
  pub count : ℕ

abbrev pub new_profile : ProfileStruct
new_profile = record { start_time = 0; sum = 0; min0 = 0; min1 = 0; max0 = 0; max1 = 0; count = 0 }

unfoldable pub start : ℕ → ProfileStruct → ProfileStruct
start t p = record p { start_time = t }

-- The smaller entry of `_min` gets a duration below it, that of `_max` one above it.
unfoldable pub add_duration : ℕ → ProfileStruct → ProfileStruct
add_duration d p =
    if ltb d p.min0
    then record p {
      sum = u64 (p.sum + p.min0);
      min0 = if ltb d p.min1 then p.min1 else d;
      min1 = if ltb d p.min1 then d else p.min1;
    }
    else if ltb p.max0 d
    then record p {
      sum = u64 (p.sum + p.max0);
      max0 = if ltb p.max1 d then p.max1 else d;
      max1 = if ltb p.max1 d then d else p.max1;
    }
    else record p { sum = u64 (p.sum + d) }

unfoldable pub update : ℕ → ProfileStruct → ProfileStruct
unfolding add_duration
update t p =
    let p' = add_duration (sub64 t p.start_time) p in
    if p.start_time == 0 then p else record p' { count = u64 (p.count + 1); start_time = 0 }

-- What a thread has measured, by names.
abbrev pub Profiles : Type 0
Profiles = List (ℕ × ProfileStruct)

-- Both say whether they complain.
unfoldable pub start_profile : ℕ → ℕ → Profiles → Profiles × Bool
unfolding start
start_profile name t s = elim (lookup name s) [
  | none ↦ (assign name (start t new_profile) s, false)
  | some p ↦ if p.start_time == 0 then (assign name (start t p) s, false) else (s, true)
]

unfoldable pub end_profile : ℕ → ℕ → Profiles → Profiles × Bool
unfolding update
end_profile name t s = elim (lookup name s) [
  | none ↦ (assign name (update t new_profile) s, false)
  | some p ↦ if p.start_time == 0 then (s, true) else (assign name (update t p) s, false)
]

-- The dividend and the divisor of the average that is written to the file.
unfoldable pub average : ProfileStruct → ℕ × ℕ
average p = (sub64 (sub64 p.sum p.min0) p.max0, sub64 p.count 2)
