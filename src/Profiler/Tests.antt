-- ===== src/Profiler/Tests.antt =====
-- Measurements of a thread, and the theorem about them.
use chatting_server_single.Common.{◌%◌, ◌^◌, ◌≡◌, refl, arith, List, [], ◌∷◌, sub64, length, true}
use chatting_server_single.Profiler.{start, start_profile, average}
use chatting_server_single.Profiler.Trace.{Event, begun, ended, largest, second_largest}
use chatting_server_single.Profiler.Measured.{kept, durations_of, rest_of, profile_lem}

-- Three durations of 5 under name 1, and one under name 2 that overlaps them.
abbrev calls : List Event
calls =
    begun 1 10
    ∷ begun 2 12
    ∷ ended 1 15
    ∷ begun 1 20
    ∷ begun 1 22
    ∷ ended 1 25
    ∷ ended 2 26
    ∷ ended 2 28
    ∷ begun 1 30
    ∷ ended 1 35
    ∷ []

three_of_five : durations_of 1 calls ≡ 5 ∷ 5 ∷ 5 ∷ []
three_of_five = refl

second_beginning_is_refused : (start_profile 1 22 (start_profile 1 20 []).0).1 ≡ true
unfolding start_profile start
second_beginning_is_refused = refl

profile_lem_example :
    ((kept 1 calls).count ≡ length (durations_of 1 calls) % 2 ^ 64)
    × ((kept 1 calls).max1 ≡ largest (durations_of 1 calls))
    × ((kept 1 calls).max0 ≡ second_largest (durations_of 1 calls))
    × ((kept 1 calls).sum ≡ rest_of (durations_of 1 calls))
    × ((kept 1 calls).min0 ≡ 0)
    × ((kept 1 calls).min1 ≡ 0)
    × ((average (kept 1 calls)).0
        ≡ sub64 (rest_of (durations_of 1 calls)) (second_largest (durations_of 1 calls)))
profile_lem_example = profile_lem 1 calls (omega arith) (omega arith)
