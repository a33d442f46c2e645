-- ===== src/Quotas/Limiter.antt =====
-- src/gateway/quotas/limiter.ts: the two limits on a call, the rate before the daily count.
pub mod Bucket
pub mod Daily
mod Tests
use coreax.Prelude.{
  ℕ, ◌-◌, ◌*◌, String, Bool, true, false, Option, none, some, ltb, or_else, if◌then◌else◌,
}
use coreax.Quotas.{ℤ, pos, negsuc, QuotaAdapter, Counted, Taken}

pub data GatewayError : Type 0 where
  rate_limited : (retry_after_sec reset_at : ℕ) → GatewayError
  quota_exceeded : (reset_at : ℕ) → GatewayError

pub record LimitEval : Type 0 where
  pub daily_remaining : Option ℕ
  pub rate_remaining : Option ℤ
  pub reset_at : Option ℕ

pub data Limited : Type 0 where
  within : LimitEval → Limited
  exceeded : GatewayError → Limited

pub record Limits : Type 0 where
  pub daily : Option ℕ
  pub rate : Option ℕ

abbrev pub is_negative : ℤ → Bool
is_negative (pos n) = false
is_negative (negsuc n) = true

-- `x && x > 0`
abbrev pub positive : Option ℕ → Option ℕ
positive none = none
positive (some n) = if ltb 0 n then some n else none

module _ {W : Type 0} (store : QuotaAdapter W) (tenant tool : String) (now : ℕ) where
  pub count_daily : Option ℤ → Option ℕ → Option ℕ → W → Limited × W
  count_daily rate_remaining reset_at none w = (
    within
        (record { daily_remaining = none; rate_remaining = rate_remaining; reset_at = reset_at }),
    w,
  )
  count_daily rate_remaining reset_at (some daily) w =
      let (c, w') = store.incr_daily tenant tool daily now w in
      if ltb daily c.count then (exceeded (quota_exceeded c.reset_at), w') else (
        within (record {
          daily_remaining = some (daily - c.count);
          rate_remaining = rate_remaining;
          reset_at = or_else reset_at (some c.reset_at);
        }),
        w',
      )

  pub after_rate : Option ℕ → Taken × W → Limited × W
  after_rate daily (t, w) =
      if is_negative t.tokens
      then (exceeded (rate_limited 1 t.reset_at), w)
      else count_daily (some t.tokens) (some t.reset_at) daily w

  pub take_rate : Option ℕ → Option ℕ → W → Limited × W
  take_rate daily none w = count_daily none none daily w
  take_rate daily (some rate) w =
      after_rate daily (store.take_token tenant tool rate (rate * 2) now w)

  -- `evaluateLimits`
  pub evaluate_limits : Limits → W → Limited × W
  evaluate_limits opts w = take_rate (positive opts.daily) (positive opts.rate) w
