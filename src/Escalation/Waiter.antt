-- ===== src/Escalation/Waiter.antt =====
-- src/review-loop/waiter.ts: the polling loop of `waitForEscalationResolution`, one round as a step.
-- Between two callbacks the clock stands still; each callback may move it.
mod Cases
pub mod Ending
pub mod Outcomes
mod Tests
use coreax.Prelude.{
  ℕ, zero, suc, ◌+◌, ◌-◌, ◌*◌, String, Bool, Option, none, some, ltb, leb, get_or, if◌then◌else◌,
}
use coreax.Escalation.{
  Status, timeout, map_resolution_status, Details, Metadata, Resolution, Config, Options,
  wait_config, Got, returned, threw, Env,
}

-- The variables of the loop.
pub record Progress : Type 0 where
  pub attempts : ℕ
  pub retry_count : ℕ
  pub last_known_status : Option String
  pub last_details : Option Details

pub data Waited : Type 0 where
  resolved : Resolution → Waited
  -- Sec0EscalationWaitError and Sec0EscalationAbortError
  wait_error : (message : String) (attempts retry_count : ℕ) → Waited
  abort_error : Waited

pub data Step (W : Type 0) : Type 0 where
  stop : Waited → W → Step W
  again : Progress → W → Step W

abbrev pub status_of : Option Details → Option String
status_of none = none
status_of (some d) = d.status

abbrev pub mapped : Option String → Option Status
mapped none = none
mapped (some s) = map_resolution_status s

abbrev reason_of : Option Details → Option String
reason_of none = none
reason_of (some d) = d.finalization_reason

module _ {W : Type 0} (env : Env W) (cfg : Config) (id : String) (started : ℕ) where
  -- The answer had a final status.
  pub finish : Progress → Option Details → Status → W → Step W
  finish p details status w =
      let at = env.now w in
      let resolution : Resolution = record {
        escalation_id = id;
        status = status;
        details = details;
        metadata = record {
          attempts = p.attempts + 1;
          retry_count = p.retry_count;
          started_at = started;
          resolved_at = at;
          elapsed_ms = at - started;
          last_known_status = status_of details;
          finalization_reason = reason_of details;
        };
      } in
      stop (resolved resolution) (env.on_resolved resolution w)

  -- The answer was not final: give up after the timeout, else sleep until the next poll.
  pub poll_again : Progress → Option Details → W → Step W
  poll_again p details w =
      let at = env.now w in
      if leb cfg.timeout_ms (at - started)
      then stop
          (resolved (record {
            escalation_id = id;
            status = timeout;
            details = details;
            metadata = record {
              attempts = p.attempts + 1;
              retry_count = 0;
              started_at = started;
              resolved_at = at;
              elapsed_ms = at - started;
              last_known_status = status_of details;
              finalization_reason = none;
            };
          }))
          w
      else again
          (record {
            attempts = p.attempts + 1;
            retry_count = 0;
            last_known_status = status_of details;
            last_details = details;
          })
          (env.sleep cfg.poll_interval_ms w)

  pub answered : Progress → Option Details → W → Step W
  answered p details w = elim (mapped (status_of details)) [
    | some status ↦ finish p details status w
    | none ↦ poll_again p details w
  ]

  -- The `catch` of the round.
  pub retry : Progress → Option String → W → Step W
  retry p message w =
      if ltb cfg.max_retries (p.retry_count + 1)
      then (let text = get_or message "Escalation wait failed" in
          stop (wait_error text (p.attempts + 1) (p.retry_count + 1)) (env.on_error "wait" text w))
      else again (record p { attempts = p.attempts + 1; retry_count = p.retry_count + 1 })
          (env.sleep (cfg.retry_backoff_ms * (p.retry_count + 1)) w)

  pub handle : Progress → Got (Option Details) → W → Step W
  handle p (returned details) w = answered p details w
  handle p (threw message) w = retry p message w

  pub step : Progress → W → Step W
  step p w =
      if env.aborted w
      then stop abort_error w
      else (let (got, w') = env.get id cfg.tenant w in handle p got w')

  -- `while (true)`; `none` means that the fuel ran out.
  pub wait_loop : ℕ → Progress → W → Option (Waited × W)
  wait_loop zero p w = none
  wait_loop (suc fuel) p w = elim (step p w) [
    | stop r w' ↦ some (r, w')
    | again p' w' ↦ wait_loop fuel p' w'
  ]

abbrev pub start : Progress
start = record { attempts = 0; retry_count = 0; last_known_status = none; last_details = none }

-- Enough rounds for a clock that moves by at least what was slept.
abbrev pub rounds : Config → ℕ
rounds c = (c.timeout_ms + 1) * (c.max_retries + 2) + 1

pub wait_for_resolution : {W : Type 0} → Env W → Config → Options → String → W → Option (Waited × W)
wait_for_resolution env c o id w =
    wait_loop env (wait_config c o) id (env.now w) (rounds (wait_config c o)) start w
