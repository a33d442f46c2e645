-- ===== src/Escalation/Waiter/Tests.antt =====
-- Waits of src/review-loop/waiter.ts in a world that is a clock.
use coreax.Prelude.{ℕ, ◌+◌, false, Option, none, some, ◌≡◌, refl, ltb, arith, if◌then◌else◌}
use coreax.Text.{trim, lower_is}
use coreax.Value.{undefined, trimmed}
use coreax.Escalation.{
  Status, Config, Options, Resolution, not_finite, Env, returned, normalize_positive_int,
  normalize_non_negative_int, map_resolution_status, resolve_config, wait_config,
}
use coreax.Escalation.Waiter.{
  Waited, resolved, wait_loop, step, handle, answered, retry, finish, poll_again,
  wait_for_resolution,
}
use coreax.Escalation.Waiter.Ending.{IsForward, wait_for_resolution-ends}
use coreax.Escalation.Waiter.Outcomes.{Justified, wait_for_resolution-Justified}

waiter : Unit {0}
unfolding wait_for_resolution wait_loop step handle answered retry finish poll_again
    map_resolution_status trim lower_is wait_config resolve_config trimmed normalize_positive_int
    normalize_non_negative_int
waiter = tt

-- Pending for the first three seconds, then approved.
abbrev world : Env ℕ
world = record {
  now = λ w. w;
  sleep = λ ms w. w + ms;
  aborted = λ w. false;
  get = λ id tenant w. (
    returned (
        some (record {
          status = some (if ltb w 3000 then "pending" else " Approved");
          finalization_reason = none;
        })),
    w,
  );
  on_resolved = λ r w. w;
  on_error = λ operation message w. w;
}

abbrev defaults : Options
defaults = record {
  tenant = undefined;
  timeout_ms = not_finite;
  poll_interval_ms = not_finite;
  max_retries = not_finite;
  retry_backoff_ms = not_finite;
}

abbrev config : Config
config = record {
  tenant = none;
  timeout_ms = 5000;
  poll_interval_ms = 2000;
  max_retries = 1;
  retry_backoff_ms = 250;
}

status_of_wait : Option (Waited × ℕ) → Option Status
status_of_wait (some (resolved r, w)) = some r.status
status_of_wait _ = none

approved_in_time :
    status_of_wait (wait_for_resolution world config defaults "e1" 0) ≡ some Status.approved
unfolding waiter status_of_wait
approved_in_time = refl

world-IsForward : IsForward world
world-IsForward = record {
  get_later = λ id tenant w. omega arith;
  sleep_later = λ ms w. omega arith;
}

wait_for_resolution-ends_example :
    (r : Waited × ℕ) × (wait_for_resolution world config defaults "e1" 0 ≡ some r)
wait_for_resolution-ends_example =
    wait_for_resolution-ends world config defaults "e1" 0 world-IsForward (omega arith)

abbrev outcome : Resolution
outcome = record {
  escalation_id = "e1";
  status = Status.approved;
  details = some (record { status = some " Approved"; finalization_reason = none });
  metadata = record {
    attempts = 3;
    retry_count = 0;
    started_at = 0;
    resolved_at = 4000;
    elapsed_ms = 4000;
    last_known_status = some " Approved";
    finalization_reason = none;
  };
}

waited : wait_for_resolution world config defaults "e1" 0 ≡ some (resolved outcome, 4000)
unfolding waiter
waited = refl

wait_for_resolution-Justified_example :
    Justified world (wait_config config defaults) "e1" 0 (resolved outcome)
wait_for_resolution-Justified_example =
    wait_for_resolution-Justified world config defaults "e1" 0 4000 (resolved outcome) waited
