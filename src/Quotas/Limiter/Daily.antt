-- ===== src/Quotas/Limiter/Daily.antt =====
-- src/gateway/quotas/adapters.ts and limiter.ts: how many calls of a day the daily limit admits.
use coreax.Prelude.{
  ℕ, ◌+◌, ◌-◌, min, String, Option, none, some, List, [], ◌∷◌, ltb, ◌≡◌, refl, ap, arith,
  if◌then◌else◌, subst, sym, Bool-cases, inl, inr, All, length, map_get, map_get-map_set_same,
}
use coreax.Quotas.{ℤ, Counted, Memory, counted_of, incr_daily, take_token, in_memory, daily_key}
use coreax.Quotas.Limiter.Bucket.{
  IsNonNegative, take_rate-passes, evaluate_limits-never_rate_limited,
}
use coreax.Quotas.Limiter.{
  Limited, within, exceeded, Limits, positive, count_daily, take_rate, evaluate_limits,
}

abbrev pub admitted : Limited → ℕ
admitted (within l) = 1
admitted (exceeded e) = 0

module _ (floor_product : ℕ → ℕ → ℕ) (date_text : ℕ → String) (tenant tool : String)
    (opts : Limits) where
  -- Calls at given moments, one after the other, and how many of them were let through.
  abbrev pub calls : List ℕ → Memory → ℕ
  calls [] m = 0
  calls (now ∷ nows) m =
      let (r, m') = evaluate_limits (in_memory floor_product date_text) tenant tool now opts m in
      admitted r + calls nows m'

  module _ (day : String) where
    abbrev pub key : String
    key = daily_key (λ _. day) tenant tool 0

    abbrev pub count_in : Option Counted → ℕ
    count_in none = 0
    count_in (some c) = c.count

    counted_of-count : (now : ℕ) (c : Option Counted) → (counted_of now c).count ≡ count_in c
    unfolding counted_of
    counted_of-count now none = refl
    counted_of-count now (some c) = refl

    -- The calls of the day that the memory has counted.
    abbrev pub made : Memory → ℕ
    made m = count_in (map_get key m.daily)

    abbrev Counts : ℕ → Memory → Limited × Memory → Type 0
    Counts daily m r =
        (made r.1 ≡ made m + 1) × (admitted r.0 ≡ (if ltb daily (made m + 1) then 0 else 1))

    count_daily-Counts :
        (now daily : ℕ) (rate_remaining : Option ℤ) (at : Option ℕ) (m : Memory)
        → date_text now ≡ day
        → Counts daily m (
            count_daily
              (in_memory floor_product date_text)
              tenant
              tool
              now
              rate_remaining
              at
              (some daily)
              m)
    unfolding count_daily in_memory incr_daily daily_key
    count_daily-Counts now daily rr at m e =
        rw (e, counted_of-count now (map_get key m.daily))
          (elim (Bool-cases (ltb daily (made m + 1))) [
            | inl over ↦ rw over (ap count_in (map_get-map_set_same key _ m.daily), refl)
            | inr under ↦ rw under (ap count_in (map_get-map_set_same key _ m.daily), refl)
          ])

    evaluate_limits-Counts :
        (now daily : ℕ) (m : Memory)
        → positive opts.daily ≡ some daily
        → date_text now ≡ day
        → IsNonNegative m
        → Counts daily m
            (evaluate_limits (in_memory floor_product date_text) tenant tool now opts m)
    unfolding evaluate_limits take_rate take_token
    evaluate_limits-Counts now daily m h e full = rw h (go (positive opts.rate))
      where
        go :
            (rate : Option ℕ)
            → Counts daily m
                (take_rate (in_memory floor_product date_text) tenant tool now (some daily) rate m)
        go none = count_daily-Counts now daily none none m e
        go (some rate) =
            subst (Counts daily m)
              (sym
                (take_rate-passes floor_product date_text tenant tool now rate (some daily) m full))
              (count_daily-Counts now daily _ _ _ e)

    -- Of calls at moments of one day, as many are let through as the daily limit leaves after the
    -- calls that were counted before, and no more; no bucket of the rate is below zero before them.
    pub calls-min :
        (daily : ℕ) (nows : List ℕ) (m : Memory)
        → positive opts.daily ≡ some daily
        → All (λ now. date_text now ≡ day) nows
        → IsNonNegative m
        → calls nows m ≡ min (length nows) (daily - made m)
    calls-min daily [] m h hs full = omega arith
    calls-min daily (now ∷ nows) m h (e, es) full =
        let (counted, let_through) = evaluate_limits-Counts now daily m h e full in
        let rest =
          calls-min daily nows
            (evaluate_limits (in_memory floor_product date_text) tenant tool now opts m).1 h es
            (evaluate_limits-never_rate_limited floor_product date_text tenant tool now opts m
              full).1 in
        ground arith
