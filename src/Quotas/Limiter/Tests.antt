-- ===== src/Quotas/Limiter/Tests.antt =====
-- Limits of src/gateway/quotas/ on given calls.
use coreax.Prelude.{
  ℕ, ◌-◌, ◌*◌, ◌/◌, ◌≤◌, min, List, String, some, [], ◌∷◌, ◌≡◌, refl, length, arith,
}
use coreax.Quotas.{
  pos, Memory, empty_memory, plus, at_most, minus_one, spend, refill, after_take, bucket_of,
  bucket_key, take_token, counted_of, daily_key, incr_daily, in_memory,
}
use coreax.Quotas.Limiter.{within, Limits, count_daily, after_rate, take_rate, evaluate_limits}
use coreax.Quotas.Limiter.Bucket.{
  IsBounded, Unlimited, take_token-IsBounded, evaluate_limits-never_rate_limited,
}
use coreax.Quotas.Limiter.Daily.{calls, made, calls-min}

limits_compute : Unit {0}
unfolding evaluate_limits take_rate after_rate count_daily in_memory incr_daily daily_key counted_of
    take_token bucket_key bucket_of after_take refill plus at_most spend minus_one
limits_compute = tt

abbrev one_day : ℕ → String
one_day now = "1970-01-01"

-- The product with no rounding.
abbrev exact : ℕ → ℕ → ℕ
exact elapsed_ms rate_per_sec = (elapsed_ms * rate_per_sec) / 1000

abbrev strict : Limits
strict = record { daily = some 2; rate = some 1 }

abbrev three : List ℕ
three = 5 ∷ 6 ∷ 7 ∷ []

-- A call that finds its bucket empty is let through all the same.
abbrev drained : Memory
drained = record { daily = []; bucket = ("t:x", record { tokens = pos 0; last = 5; cap = 2 }) ∷ [] }

runs :
    (calls exact one_day "t" "x" strict three empty_memory ≡ 2)
    × ((evaluate_limits (in_memory exact one_day) "t" "x" 5 strict drained).0
        ≡ within (record {
          daily_remaining = some 1;
          rate_remaining = some (pos 0);
          reset_at = some 1005;
        }))
    × ((take_token exact "t" "x" 4 8 505 drained).0.tokens ≡ pos 1)
unfolding limits_compute
runs = (refl, refl, refl)

take_token-IsBounded_example : IsBounded (take_token exact "t" "x" 4 8 505 drained).1
take_token-IsBounded_example = take_token-IsBounded exact "t" "x" 4 8 505 drained (arith_zero, tt)
  where
    arith_zero : 0 ≤ 2
    arith_zero = omega arith

evaluate_limits-never_rate_limited_example :
    Unlimited exact one_day "t" "x" 5
      (evaluate_limits (in_memory exact one_day) "t" "x" 5 strict drained)
evaluate_limits-never_rate_limited_example =
    evaluate_limits-never_rate_limited exact one_day "t" "x" 5 strict drained (refl, tt)

calls-min_example :
    calls exact one_day "t" "x" strict three empty_memory
    ≡ min (length three) (2 - made exact one_day "t" "x" strict "1970-01-01" empty_memory)
calls-min_example =
    calls-min exact one_day "t" "x" strict "1970-01-01" 2 three empty_memory refl
      (refl, (refl, (refl, tt))) tt
