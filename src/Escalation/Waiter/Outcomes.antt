-- ===== src/Escalation/Waiter/Outcomes.antt =====
-- src/review-loop/waiter.ts: what a finished wait says of the answers that it got.
-- The answers of the resolver are kept in a list, the last one first.
use coreax.Prelude.{
  ℕ, zero, suc, ◌+◌, ◌-◌, ◌≤◌, String, Option, none, some, ltb, leb, ◌≡◌, refl, inl, inr, ◌⊎◌, List,
  [], ◌∷◌, length, get_or, true, false, ◌<◌, leb→lt, ◌*◌, arith, leb→le, Bool-cases,
}
use coreax.Escalation.{
  Status, timeout, Details, Resolution, Config, Options, wait_config, Got, returned, threw, Env,
}
use coreax.Escalation.Waiter.{
  Progress, Waited, resolved, wait_error, abort_error, Step, stop, again, status_of, mapped, finish,
  poll_again, answered, retry, handle, step, wait_loop, start, rounds, wait_for_resolution,
}
use coreax.Escalation.Waiter.Cases.{Step-cases}
use mathlib.Core.Path.{subst, sym}

module _ {W : Type 0} (env : Env W) (cfg : Config) (id : String) (begun : W) where
  abbrev pub Answers : Type 0
  Answers = List (Got (Option Details))

  -- The failures since the last answer that was none.
  abbrev pub in_a_row : Answers → ℕ
  in_a_row [] = 0
  in_a_row (returned d ∷ h) = 0
  in_a_row (threw m ∷ h) = in_a_row h + 1

  -- The time since the wait began.
  abbrev pub elapsed : W → ℕ
  elapsed w = env.now w - env.now begun

  -- The worlds in which a round of the wait may begin, after these answers.
  pub data Reached : Answers → W → Type 0 where
    here : Reached [] begun
    polled :
        {h : Answers} {w : W} (d : Option Details) (w' : W)
        → Reached h w
        → env.aborted w ≡ false
        → env.get id cfg.tenant w ≡ (returned d, w')
        → mapped (status_of d) ≡ none
        → elapsed w' < cfg.timeout_ms
        → Reached (returned d ∷ h) (env.sleep cfg.poll_interval_ms w')
    failed :
        {h : Answers} {w : W} (m : Option String) (w' : W)
        → Reached h w
        → env.aborted w ≡ false
        → env.get id cfg.tenant w ≡ (threw m, w')
        → in_a_row h + 1 ≤ cfg.max_retries
        → Reached (threw m ∷ h) (env.sleep (cfg.retry_backoff_ms * (in_a_row h + 1)) w')

  -- The last round of a wait: it began after these answers, was not aborted, and was given this one.
  pub record Last (got : Got (Option Details)) : Type 0 where
    pub answers : Answers
    pub asked : W
    pub after : W
    pub reached : Reached answers asked
    pub going : env.aborted asked ≡ false
    pub answer : env.get id cfg.tenant asked ≡ (got, after)

  -- A final status is the one of the last answer; a timeout comes where the last answer has none, and
  -- no earlier than the timeout.
  abbrev pub Decided : (r : Resolution) → Last (returned r.details) → Type 0
  Decided r l =
      ((mapped (status_of r.details) ≡ some r.status)
        × (r.metadata.retry_count ≡ in_a_row l.answers))
      ⊎ ((mapped (status_of r.details) ≡ none)
          × (r.status ≡ timeout)
          × (cfg.timeout_ms ≤ elapsed l.after)
          × (r.metadata.retry_count ≡ 0))

  pub record IsJustified (r : Resolution) : Type 0 where
    pub named : r.escalation_id ≡ id
    pub last : Last (returned r.details)
    pub counted : r.metadata.attempts ≡ length last.answers + 1
    pub timed : r.metadata.elapsed_ms ≡ elapsed last.after
    pub decided : Decided r last

  -- The last request failed too, and with it just one more in a row than the retries.
  pub record IsExhausted (message : String) (attempts retry_count : ℕ) : Type 0 where
    pub thrown : Option String
    pub last : Last (threw thrown)
    pub told : message ≡ get_or thrown "Escalation wait failed"
    pub counted : attempts ≡ length last.answers + 1
    pub in_row : retry_count ≡ in_a_row last.answers + 1
    pub over : retry_count ≡ cfg.max_retries + 1

  abbrev pub Justified : Waited → Type 0
  Justified (resolved r) = IsJustified r
  Justified (wait_error message attempts retry_count) = IsExhausted message attempts retry_count
  Justified abort_error = (answers : Answers) × (w : W) × Reached answers w × (env.aborted w ≡ true)

  -- The variables of the loop count the answers.
  record Tracks (p : Progress) (h : Answers) : Type 0 where
    all_counted : p.attempts ≡ length h
    row_counted : p.retry_count ≡ in_a_row h
    few : in_a_row h ≤ cfg.max_retries

  abbrev JustifiedStep : Step W → Type 0
  JustifiedStep (stop r w) = Justified r
  JustifiedStep (again p w) = (h : Answers) × Reached h w × Tracks p h

  poll_again-Justified :
      (p : Progress) (d : Option Details) (l : Last (returned d))
      → Tracks p l.answers
      → mapped (status_of d) ≡ none
      → JustifiedStep (poll_again env cfg id (env.now begun) p d l.after)
  unfolding poll_again
  poll_again-Justified p d l t open_still =
      elim (Bool-cases (leb cfg.timeout_ms (env.now l.after - env.now begun))) [
        | inl late ↦ rw late (record {
          named = refl;
          last = l;
          counted = omega (arith, t.all_counted);
          timed = refl;
          decided = inr (open_still, refl, leb→le _ _ late, refl);
        })
        | inr early ↦ rw early (
          returned d ∷ l.answers,
          polled d l.after l.reached l.going l.answer open_still (leb→lt _ _ early),
          record {
            all_counted = omega (arith, t.all_counted);
            row_counted = refl;
            few = omega arith;
          },
        )
      ]

  answered-Justified :
      (p : Progress) (d : Option Details) (l : Last (returned d))
      → Tracks p l.answers
      → JustifiedStep (answered env cfg id (env.now begun) p d l.after)
  unfolding answered finish
  answered-Justified p d l t = go (mapped (status_of d)) refl
    where
      go :
          (m : Option Status)
          → mapped (status_of d) ≡ m
          → JustifiedStep (elim m [
            | some status ↦ finish env cfg id (env.now begun) p d status l.after
            | none ↦ poll_again env cfg id (env.now begun) p d l.after
          ])
      go none e = poll_again-Justified p d l t e
      go (some status) e = record {
        named = refl;
        last = l;
        counted = omega (arith, t.all_counted);
        timed = refl;
        decided = inl (e, t.row_counted);
      }

  retry-Justified :
      (p : Progress) (m : Option String) (l : Last (threw m))
      → Tracks p l.answers
      → JustifiedStep (retry env cfg id (env.now begun) p m l.after)
  unfolding retry
  retry-Justified p m l t =
      let row = t.row_counted in
      let few = t.few in
      elim (Bool-cases (ltb cfg.max_retries (p.retry_count + 1))) [
        | inl over ↦ rw over (record {
          thrown = m;
          last = l;
          told = refl;
          counted = omega (arith, t.all_counted);
          in_row = omega arith;
          over = ground arith;
        })
        | inr under ↦ rw under (
          threw m ∷ l.answers,
          subst
              (λ n.
                Reached (threw m ∷ l.answers) (env.sleep (cfg.retry_backoff_ms * (n + 1)) l.after))
              (sym row) (failed m l.after l.reached l.going l.answer (ground arith)),
          record {
            all_counted = omega (arith, t.all_counted);
            row_counted = omega arith;
            few = ground arith;
          },
        )
      ]

  handle-Justified :
      (p : Progress) (got : Got (Option Details)) (l : Last got)
      → Tracks p l.answers
      → JustifiedStep (handle env cfg id (env.now begun) p got l.after)
  unfolding handle
  handle-Justified p (returned d) l t = answered-Justified p d l t
  handle-Justified p (threw m) l t = retry-Justified p m l t

  step-Justified :
      (h : Answers) (p : Progress) (w : W)
      → Reached h w
      → Tracks p h
      → JustifiedStep (step env cfg id (env.now begun) p w)
  unfolding step
  step-Justified h p w reached t = elim (Bool-cases (env.aborted w)) [
    | inl stopped ↦ rw stopped (h, w, reached, stopped)
    | inr going ↦
        let l : Last (env.get id cfg.tenant w).0 = record {
          answers = h;
          asked = w;
          after = (env.get id cfg.tenant w).1;
          reached = reached;
          going = going;
          answer = refl;
        } in
        rw going (handle-Justified p (env.get id cfg.tenant w).0 l t)
  ]

  wait_loop-Justified :
      (fuel : ℕ) (h : Answers) (p : Progress) (w w' : W) (r : Waited)
      → Reached h w
      → Tracks p h
      → wait_loop env cfg id (env.now begun) fuel p w ≡ some (r, w')
      → Justified r
  unfolding wait_loop
  wait_loop-Justified zero h p w w' r reached t e = cc
  wait_loop-Justified (suc fuel) h p w w' r reached t ends =
      elim (Step-cases (step env cfg id (env.now begun) p w)) [
        | inl (q, v, e) ↦
            let ended : ◌≡◌ {A = Option (Waited × W)} (some (q, v)) (some (r, w')) =
              rw (e, wait_loop) at ends in
            let justified : Justified q = rw e at (step-Justified h p w reached t) in
            subst Justified (ground arith) justified
        | inr (q, v, e) ↦
            let (h', reached', t') = rw e at (step-Justified h p w reached t) in
            wait_loop-Justified fuel h' q v w' r reached' t' (rw (e, wait_loop) at ends)
      ]

-- Whatever a wait ends with is justified by a round that the wait has reached, from its beginning,
-- by polls whose answers had no final status, before the timeout, and by failures of which never more
-- than the retries came in a row. A resolution names the escalation, gives the answer of that round,
-- the number of requests and the time, and its status is the answer's final one, or timeout where the
-- answer has none and the timeout has passed. A wait error comes where the request of that round
-- failed, as the first failure in a row beyond the retries. An abort comes where the signal is set.
pub wait_for_resolution-Justified :
    {W : Type 0} (env : Env W) (c : Config) (o : Options) (id : String) (w w' : W) (r : Waited)
    → wait_for_resolution env c o id w ≡ some (r, w')
    → Justified env (wait_config c o) id w r
unfolding wait_for_resolution
wait_for_resolution-Justified env c o id w w' r h =
    wait_loop-Justified env (wait_config c o) id w (rounds (wait_config c o)) [] start w w' r here
      (record { all_counted = refl; row_counted = refl; few = omega arith }) h
