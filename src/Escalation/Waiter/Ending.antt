-- ===== src/Escalation/Waiter/Ending.antt =====
-- src/review-loop/waiter.ts: the polling loop ends.
use coreax.Prelude.{
  ℕ, zero, suc, ◌+◌, ◌-◌, ◌*◌, ◌≤◌, ◌<◌, String, Option, some, ◌≡◌, inl, inr, arith, Bool-cases,
}
use coreax.Escalation.{
  Details, Config, Options, wait_config, normalize_positive_int, Numeric, not_finite, negative,
  floor, Got, returned, threw, Env,
}
use coreax.Escalation.Waiter.{
  Progress, Waited, stop, again, finish, poll_again, answered, retry, handle, step, wait_loop,
  start, rounds, wait_for_resolution,
}
use coreax.Escalation.Waiter.Cases.{Step-cases}

-- A clock that never goes back, and that a sleep moves by what was asked for.
pub record IsForward {W : Type 0} (env : Env W) : Type 0 where
  pub get_later :
      (id : String) (tenant : Option String) (w : W) → env.now w ≤ env.now (env.get id tenant w).1
  pub sleep_later : (ms : ℕ) (w : W) → env.now w + ms ≤ env.now (env.sleep ms w)

fewer_left : (a b k x y : ℕ) → a < b → x < k → a * k + x < b * k + y
fewer_left a b k x y h l = grind arith

same_left : (a b k x y : ℕ) → a ≤ b → x < y → a * k + x < b * k + y
same_left a b k x y h l = grind arith

module _ {W : Type 0} (env : Env W) (cfg : Config) (id : String) (started : ℕ) where
  abbrev left : W → ℕ
  left w = cfg.timeout_ms - (env.now w - started)

  -- The time left counts most; a failed request uses up a retry.
  abbrev measure : Progress → W → ℕ
  measure p w = left w * (cfg.max_retries + 2) + (cfg.max_retries + 1 - p.retry_count)

  -- What a round that goes on has done.
  poll_again-again :
      (p p' : Progress) (d : Option Details) (w w' : W)
      → poll_again env cfg id started p d w ≡ again p' w'
      → (w' ≡ env.sleep cfg.poll_interval_ms w) × (env.now w - started < cfg.timeout_ms)
  unfolding poll_again
  poll_again-again p p' d w w' h = ground arith

  retry-again :
      (p p' : Progress) (m : Option String) (w w' : W)
      → retry env cfg id started p m w ≡ again p' w'
      → (w' ≡ env.sleep (cfg.retry_backoff_ms * (p.retry_count + 1)) w)
        × (p'.retry_count ≡ p.retry_count + 1)
        × (p.retry_count + 1 ≤ cfg.max_retries)
  unfolding retry
  retry-again p p' m w w' h = ground arith

  answered-again :
      (p p' : Progress) (d : Option Details) (w w' : W)
      → answered env cfg id started p d w ≡ again p' w'
      → poll_again env cfg id started p d w ≡ again p' w'
  unfolding answered finish
  answered-again p p' d w w' h = ground arith

  module _ (forward : IsForward env) (polls : 1 ≤ cfg.poll_interval_ms) where
    handle-measure :
        (p p' : Progress) (got : Got (Option Details)) (w w₁ w' : W)
        → env.now w ≤ env.now w₁
        → started ≤ env.now w
        → handle env cfg id started p got w₁ ≡ again p' w'
        → (measure p' w' < measure p w) × (started ≤ env.now w')
    unfolding handle
    handle-measure p p' (returned d) w w₁ w' later begun h =
        let (slept, early) = poll_again-again p p' d w₁ w' (answered-again p p' d w₁ w' h) in
        let moved : env.now w₁ + cfg.poll_interval_ms ≤ env.now w' =
          rw slept (forward.sleep_later cfg.poll_interval_ms w₁) in
        (
          fewer_left (left w') (left w) (cfg.max_retries + 2) (cfg.max_retries + 1 - p'.retry_count)
              _ (omega arith) (omega arith),
          omega arith,
        )
    handle-measure p p' (threw m) w w₁ w' later begun h =
        let (slept, counted, few) = retry-again p p' m w₁ w' h in
        let moved : env.now w₁ ≤ env.now w' =
          rw slept
            (omega (arith, forward.sleep_later (cfg.retry_backoff_ms * (p.retry_count + 1)) w₁)) in
        (
          same_left (left w') (left w) (cfg.max_retries + 2) _ _ (omega arith) (omega arith),
          omega arith,
        )

    step-measure :
        (p p' : Progress) (w w' : W)
        → started ≤ env.now w
        → step env cfg id started p w ≡ again p' w'
        → (measure p' w' < measure p w) × (started ≤ env.now w')
    unfolding step
    step-measure p p' w w' begun h = elim (Bool-cases (env.aborted w)) [
      | inl stopped ↦ absurd (stop≢again (rw stopped at h))
      | inr going ↦
          handle-measure p p' (env.get id cfg.tenant w).0 w (env.get id cfg.tenant w).1 w'
            (forward.get_later id cfg.tenant w) begun (rw going at h)
    ]
      where
        stop≢again : {r : Waited} {v : W} → stop r v ≡ again p' w' → ⊥
        stop≢again e = cc

    wait_loop-ends :
        (fuel : ℕ) (p : Progress) (w : W)
        → started ≤ env.now w
        → measure p w < fuel
        → (r : Waited × W) × (wait_loop env cfg id started fuel p w ≡ some r)
    unfolding wait_loop
    wait_loop-ends zero p w begun h = elim h [ ]
    wait_loop-ends (suc fuel) p w begun h = elim (Step-cases (step env cfg id started p w)) [
      | inl (r, v, e) ↦ ((r, v), rw (e, wait_loop))
      | inr (q, v, e) ↦
          let (less, later) = step-measure p q w v begun e in
          rw (e, wait_loop) (wait_loop-ends fuel q v later (omega arith))
    ]

positive_int-pos :
    (n : Numeric) (fallback : ℕ) → 1 ≤ fallback → 1 ≤ normalize_positive_int n fallback 1
unfolding normalize_positive_int
positive_int-pos not_finite fallback h = h
positive_int-pos negative fallback h = omega arith
positive_int-pos (floor n) fallback h = omega arith

wait_config-pos :
    (c : Config) (o : Options) → 1 ≤ c.poll_interval_ms → 1 ≤ (wait_config c o).poll_interval_ms
unfolding wait_config
wait_config-pos c o h = positive_int-pos o.poll_interval_ms c.poll_interval_ms h

enough_rounds : (t s m : ℕ) → (t - (s - s)) * (m + 2) + (m + 1 - 0) < (t + 1) * (m + 2) + 1
enough_rounds t s m = grind arith

-- A wait ends, whatever the resolver answers, if the clock never goes back, a sleep moves it by what
-- was asked for, and the configured poll interval is positive.
pub wait_for_resolution-ends :
    {W : Type 0} (env : Env W) (c : Config) (o : Options) (id : String) (w : W)
    → IsForward env
    → 1 ≤ c.poll_interval_ms
    → (r : Waited × W) × (wait_for_resolution env c o id w ≡ some r)
unfolding wait_for_resolution
wait_for_resolution-ends env c o id w forward polls =
    wait_loop-ends env (wait_config c o) id (env.now w) forward (wait_config-pos c o polls)
      (rounds (wait_config c o)) start w (omega arith)
      (enough_rounds (wait_config c o).timeout_ms (env.now w) (wait_config c o).max_retries)
