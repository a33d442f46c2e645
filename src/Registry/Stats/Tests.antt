-- ===== src/Registry/Stats/Tests.antt =====
-- The window of calls at concrete calls, and the theorems at them.
use coreax.Prelude.{
  ℕ, ◌*◌, ◌/◌, ◌≤◌, ◌<◌, String, true, List, [], ◌∷◌, ◌≡◌, refl, num_eq, leb, count_of, arith,
}
use coreax.Registry.Stats.{
  Stat, entries_of, push_stat, calc_p95, get_sample_count, shift, push_entry, nth, p95_index,
}
use coreax.Registry.Stats.Window.{pushed, latest, of_tool, pushed-latest, latencies, calc_p95-rank}

abbrev took : ℕ → Stat
took n = record { ok = true; latency = n; ts = 0 }

abbrev endings : List (String × Stat)
endings = ("a", took 5) ∷ ("b", took 6) ∷ ("a", took 9) ∷ ("a", took 7) ∷ []

pushed-latest_example : entries_of "a" (pushed 2 endings []) ≡ latest 2 (of_tool "a" endings)
pushed-latest_example = pushed-latest 2 "a" endings

window_of_two : entries_of "a" (pushed 2 endings []) ≡ took 9 ∷ took 7 ∷ []
unfolding entries_of push_stat push_entry shift
window_of_two = refl

percentile_of_three : calc_p95 "a" (pushed 3 endings []) ≡ 7
unfolding calc_p95 entries_of push_stat push_entry shift nth p95_index
percentile_of_three = refl

three_samples : 0 < get_sample_count "a" (pushed 3 endings [])
unfolding get_sample_count entries_of push_stat push_entry shift
three_samples = omega arith

calc_p95-rank_example :
    (1
      ≤ count_of
          (λ y. num_eq y (calc_p95 "a" (pushed 3 endings [])))
          (latencies "a" (pushed 3 endings [])))
    × (get_sample_count "a" (pushed 3 endings []) * 95 / 100
        ≤ count_of
            (λ y. leb y (calc_p95 "a" (pushed 3 endings [])))
            (latencies "a" (pushed 3 endings [])))
calc_p95-rank_example = calc_p95-rank "a" (pushed 3 endings []) three_samples
