-- ===== src/Registry/Stats.antt =====
-- src/middleware/registryState.ts: the window of the last calls of each tool. The share of errors is
-- kept as its two numbers.
pub mod Window
mod Tests
use coreax.Prelude.{
  ℕ, zero, suc, num_eq, true, false, ap, ◌∙◌, sym, ◌+◌, ◌-◌, ◌*◌, ◌/◌, ◌≤◌, ◌<◌, min, max, String,
  Bool, not, Option, none, some, List, [], ◌∷◌, ◌++◌, map, ◌==◌, ltb, leb, if◌then◌else◌, get_or,
  keep, length, length-append, map_get, map_set, map_get-map_set_same, map_get-map_set_other,
  sort_numbers, sort_numbers-Ascending, Ascending, AtLeast, count_of, count_of-sort_by,
  length-sort_by, ◌≡◌, refl, arith, Bool-cases, inl, inr, eq_iff,
}

pub record Stat : Type 0 where
  pub ok : Bool
  pub latency : ℕ
  pub ts : ℕ

-- `recentByTool`
abbrev pub Stats : Type 0
Stats = List (String × List Stat)

pub entries_of : String → Stats → List Stat
entries_of tool_key m = get_or (map_get tool_key m) []

-- `entries.shift()`
pub shift : List Stat → List Stat
shift [] = []
shift (x ∷ xs) = xs

pub push_entry : (window_size : ℕ) → Stat → List Stat → List Stat
push_entry window_size e entries =
    let pushed = entries ++ (e ∷ []) in
    if ltb window_size (length pushed) then shift pushed else pushed

pub push_stat : (window_size : ℕ) → String → Stat → Stats → Stats
push_stat window_size tool_key e m =
    map_set tool_key (push_entry window_size e (entries_of tool_key m)) m

-- The errors and the number of calls whose quotient the source returns as a percentage.
pub calc_error_rate : String → Stats → ℕ × ℕ
calc_error_rate tool_key m =
    let entries = entries_of tool_key m in (length (keep (λ e. not e.ok) entries), length entries)

pub nth : ℕ → List ℕ → ℕ
nth i [] = 0
nth zero (x ∷ xs) = x
nth (suc i) (x ∷ xs) = nth i xs

-- `Math.max(0, Math.min(n - 1, Math.floor(n * 0.95) - 1))`
pub p95_index : ℕ → ℕ
p95_index n = min (n - 1) ((n * 95) / 100 - 1)

pub calc_p95 : String → Stats → ℕ
calc_p95 tool_key m =
    let latencies = sort_numbers (map (λ e. e.latency) (entries_of tool_key m)) in
    nth (p95_index (length latencies)) latencies

pub get_sample_count : String → Stats → ℕ
get_sample_count tool_key m = length (entries_of tool_key m)
