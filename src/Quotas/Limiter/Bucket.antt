-- ===== src/Quotas/Limiter/Bucket.antt =====
-- src/gateway/quotas/adapters.ts and limiter.ts: the token buckets of the adapter in memory.
use coreax.Prelude.{
  ℕ, zero, suc, ◌≤◌, String, false, Option, none, some, ◌≢◌, ◌≡◌, refl, ◌+◌, min, ltb, subst, sym,
  ◌*◌, arith, Bool-cases, inl, inr, Option-cases, All, map_get, map_set-All, map_get-All,
}
use coreax.Quotas.{
  ℤ, pos, negsuc, TokenBucket, Memory, plus, at_most, minus_one, spend, after_take, bucket_of,
  bucket_key, take_token, incr_daily, in_memory,
}
use coreax.Quotas.Limiter.{
  Limited, exceeded, rate_limited, Limits, is_negative, positive, count_daily, after_rate,
  take_rate, evaluate_limits,
}

-- An integer is at most a number.
abbrev pub AtMost : ℕ → ℤ → Type 0
AtMost cap (pos n) = n ≤ cap
AtMost cap (negsuc n) = Unit

abbrev pub Bounded : String × TokenBucket → Type 0
Bounded (k, b) = AtMost b.cap b.tokens

-- No bucket holds more tokens than its burst.
abbrev pub IsBounded : Memory → Type 0
IsBounded m = All Bounded m.bucket

abbrev NotBelow : String × TokenBucket → Type 0
NotBelow (k, b) = is_negative b.tokens ≡ false

-- No bucket is below zero.
abbrev pub IsNonNegative : Memory → Type 0
IsNonNegative m = All NotBelow m.bucket

spend-AtMost : (cap : ℕ) (t : ℤ) → AtMost cap t → AtMost cap (spend t)
unfolding spend minus_one
spend-AtMost cap (pos zero) h = h
spend-AtMost cap (pos (suc n)) h = ground arith
spend-AtMost cap (negsuc n) h = tt

at_most-AtMost : (cap : ℕ) (t : ℤ) → AtMost cap (at_most cap t)
unfolding at_most
at_most-AtMost cap (pos n) = omega arith
at_most-AtMost cap (negsuc n) = tt

filled_not_below :
    (cap m : ℕ) (t : ℤ)
    → is_negative t ≡ false
    → is_negative (spend (at_most cap (plus t m))) ≡ false
unfolding spend minus_one at_most plus
filled_not_below cap m (pos n) h = go (min cap (n + m))
  where
    go : (k : ℕ) → is_negative (spend (pos k)) ≡ false
    go zero = refl
    go (suc k) = ground arith
filled_not_below cap m (negsuc n) h = cc

module _ (floor_product : ℕ → ℕ → ℕ) where
  -- A token that is taken, at whatever moment and rate and whatever the time has earned, leaves every
  -- bucket within its burst, where each was within it before.
  pub take_token-IsBounded :
      (tenant tool : String) (rate burst now : ℕ) (m : Memory)
      → IsBounded m
      → IsBounded (take_token floor_product tenant tool rate burst now m).1
  unfolding take_token after_take
  take_token-IsBounded tenant tool rate burst now m h =
      map_set-All Bounded (bucket_key tenant tool) _ m.bucket
        (spend-AtMost _ _ (at_most-AtMost _ _)) h

  bucket_of-NotBelow :
      (k : String) (burst now : ℕ) (m : Memory)
      → IsNonNegative m
      → is_negative (bucket_of burst now (map_get k m.bucket)).tokens ≡ false
  unfolding bucket_of
  bucket_of-NotBelow k burst now m h = elim (Option-cases (map_get k m.bucket)) [
    | inl fresh ↦ rw fresh refl
    | inr (b, known) ↦ rw known (map_get-All NotBelow k b m.bucket h known)
  ]

  take_token-IsNonNegative :
      (tenant tool : String) (rate burst now : ℕ) (m : Memory)
      → IsNonNegative m
      → (is_negative (take_token floor_product tenant tool rate burst now m).0.tokens ≡ false)
        × IsNonNegative (take_token floor_product tenant tool rate burst now m).1
  unfolding take_token after_take
  take_token-IsNonNegative tenant tool rate burst now m h =
      let old = bucket_of-NotBelow (bucket_key tenant tool) burst now m h in
      let new = filled_not_below _ _ _ old in
      (new, map_set-All NotBelow (bucket_key tenant tool) _ m.bucket new h)

  module _ (date_text : ℕ → String) (tenant tool : String) (now : ℕ) where
    -- The rate lets every call through to the daily count.
    pub take_rate-passes :
        (rate : ℕ) (daily : Option ℕ) (m : Memory)
        → IsNonNegative m
        → let (t, m') = take_token floor_product tenant tool rate (rate * 2) now m in
          take_rate (in_memory floor_product date_text) tenant tool now daily (some rate) m
          ≡ count_daily
              (in_memory floor_product date_text)
              tenant
              tool
              now
              (some t.tokens)
              (some t.reset_at)
              daily
              m'
    unfolding take_rate after_rate in_memory
    take_rate-passes rate daily m h =
        rw (take_token-IsNonNegative tenant tool rate (rate * 2) now m h).0 refl

    -- No refusal for the rate, and no bucket below zero.
    abbrev pub Unlimited : Limited × Memory → Type 0
    Unlimited r =
        ((retry_after reset_at : ℕ) → r.0 ≢ exceeded (rate_limited retry_after reset_at))
        × IsNonNegative r.1

    count_daily-Unlimited :
        (rate_remaining : Option ℤ) (at : Option ℕ) (daily : Option ℕ) (m : Memory)
        → IsNonNegative m
        → Unlimited (
            count_daily
              (in_memory floor_product date_text)
              tenant
              tool
              now
              rate_remaining
              at
              daily
              m)
    unfolding count_daily in_memory incr_daily
    count_daily-Unlimited r at none m h = ((λ a b p. cc), h)
    count_daily-Unlimited r at (some daily) m h =
        elim (Bool-cases (ltb daily (incr_daily date_text tenant tool daily now m).0.count)) [
          | inl over ↦ rw over ((λ a b p. cc), h)
          | inr under ↦ rw under ((λ a b p. cc), h)
        ]

    take_rate-Unlimited :
        (daily rate : Option ℕ) (m : Memory)
        → IsNonNegative m
        → Unlimited (take_rate (in_memory floor_product date_text) tenant tool now daily rate m)
    unfolding take_rate
    take_rate-Unlimited daily none m h = count_daily-Unlimited none none daily m h
    take_rate-Unlimited daily (some rate) m h =
        subst Unlimited (sym (take_rate-passes rate daily m h)) (
          count_daily-Unlimited _ _ daily _
            (take_token-IsNonNegative tenant tool rate (rate * 2) now m h).1)

    -- With the adapter in memory, whole-number limits and no bucket below zero, a call is not refused
    -- for its rate, however empty its bucket is, and no bucket is below zero after it.
    pub evaluate_limits-never_rate_limited :
        (opts : Limits) (m : Memory)
        → IsNonNegative m
        → Unlimited (evaluate_limits (in_memory floor_product date_text) tenant tool now opts m)
    unfolding evaluate_limits
    evaluate_limits-never_rate_limited opts m h =
        take_rate-Unlimited (positive opts.daily) (positive opts.rate) m h
