-- ===== src/Quotas.antt =====
-- src/gateway/quotas/adapters.ts: the contract of a quota adapter and the adapter that keeps its
-- counters in memory. Moments are milliseconds since the epoch; rates, bursts and daily limits are
-- whole numbers, tokens integers.
pub mod Limiter
use coreax.Prelude.{
  ℕ, zero, suc, ◌+◌, ◌-◌, ◌*◌, min, String, Bool, false, Option, none, some, List, [], ◌∷◌, ◌==◌,
  ltb, num_eq, if◌then◌else◌, map_get, map_set,
}
use Prim.Native.String

-- The numbers of a contract whose adapters may return less than nothing: `negsuc n` is `-(n + 1)`.
pub data ℤ : Type 0 where
  pos negsuc : ℕ → ℤ

pub record Counted : Type 0 where
  pub count : ℕ
  pub reset_at : ℕ

pub record Taken : Type 0 where
  pub tokens : ℤ
  pub reset_at : ℕ

-- `QuotaAdapter`, on a world of its own
pub record QuotaAdapter (W : Type 0) : Type 0 where
  pub incr_daily : (tenant tool : String) → (limit now : ℕ) → W → Counted × W
  pub take_token : (tenant tool : String) → (rate_per_sec burst now : ℕ) → W → Taken × W

pub record TokenBucket : Type 0 where
  pub tokens : ℤ
  pub last : ℕ
  pub cap : ℕ

pub record Memory : Type 0 where
  pub daily : List (String × Counted)
  pub bucket : List (String × TokenBucket)

abbrev pub empty_memory : Memory
empty_memory = record { daily = []; bucket = [] }

abbrev pub day_ms : ℕ
day_ms = 86400000

infixr 20 ◌++◌
abbrev ◌++◌ : String → String → String
a ++ b = String.◌++◌ a b

-- The fresh record of a key, or the one it has.
counted_of : ℕ → Option Counted → Counted
counted_of now none = record { count = 0; reset_at = now + day_ms }
counted_of now (some c) = c

bucket_of : (burst now : ℕ) → Option TokenBucket → TokenBucket
bucket_of burst now none = record { tokens = pos burst; last = now; cap = burst }
bucket_of burst now (some b) = b

plus : ℤ → ℕ → ℤ
plus (pos n) m = pos (n + m)
plus (negsuc n) m = if ltb n m then pos (m - n - 1) else negsuc (n - m)

at_most : ℕ → ℤ → ℤ
at_most cap (pos n) = pos (min cap n)
at_most cap (negsuc n) = negsuc n

minus_one : ℤ → ℤ
minus_one (pos zero) = negsuc 0
minus_one (pos (suc n)) = pos n
minus_one (negsuc n) = negsuc (n + 1)

abbrev is_positive : ℤ → Bool
is_positive (pos n) = ltb 0 n
is_positive (negsuc n) = false

abbrev is_zero : ℤ → Bool
is_zero (pos n) = num_eq n 0
is_zero (negsuc n) = false

-- `if (rec.tokens > 0) rec.tokens -= 1`
pub spend : ℤ → ℤ
spend tokens = if is_positive tokens then minus_one tokens else tokens

-- `date_text` is `now.toISOString().slice(0, 10)`.
module _ (date_text : ℕ → String) where
  pub daily_key : (tenant tool : String) → ℕ → String
  daily_key tenant tool now = tenant ++ ":" ++ tool ++ ":" ++ date_text now

  pub incr_daily : (tenant tool : String) → (limit now : ℕ) → Memory → Counted × Memory
  incr_daily tenant tool limit now m =
      let rec = counted_of now (map_get (daily_key tenant tool now) m.daily) in
      let next = record rec { count = rec.count + 1 } in
      (next, record m { daily = map_set (daily_key tenant tool now) next m.daily })

bucket_key : (tenant tool : String) → String
bucket_key tenant tool = tenant ++ ":" ++ tool

-- `floor_product` is the floor of the floating-point product of the seconds and the rate, where it is
-- positive.
module _ (floor_product : (elapsed_ms rate_per_sec : ℕ) → ℕ) where
  -- The tokens that the time since the last call has earned; a clock that went back earns none.
  pub refill : (rate_per_sec now : ℕ) → TokenBucket → ℕ
  refill rate_per_sec now b =
      if ltb b.last now then floor_product (now - b.last) rate_per_sec else 0

  pub after_take : (rate_per_sec now : ℕ) → TokenBucket → TokenBucket
  after_take rate_per_sec now b = record {
    tokens = spend (at_most b.cap (plus b.tokens (refill rate_per_sec now b)));
    last = now;
    cap = b.cap;
  }

  pub take_token : (tenant tool : String) → (rate_per_sec burst now : ℕ) → Memory → Taken × Memory
  take_token tenant tool rate_per_sec burst now m =
      let rec = bucket_of burst now (map_get (bucket_key tenant tool) m.bucket) in
      let next = after_take rate_per_sec now rec in
      (
        record { tokens = next.tokens; reset_at = now + (if is_zero next.tokens then 1000 else 0) },
        record m { bucket = map_set (bucket_key tenant tool) next m.bucket },
      )

-- `InMemoryAdapter`
pub in_memory : (ℕ → ℕ → ℕ) → (ℕ → String) → QuotaAdapter Memory
in_memory floor_product date_text = record {
  incr_daily = incr_daily date_text;
  take_token = take_token floor_product;
}
