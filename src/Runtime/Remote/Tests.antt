-- ===== src/Runtime/Remote/Tests.antt =====
-- Runs of src/runtime-adapter/remoteAdapter.ts against a given network.
use coreax.Prelude.{
  ℕ, suc, ◌+◌, ◌≤◌, String, true, false, Option, none, some, [], ◌∷◌, ◌≡◌, refl, inr, length,
  num_eq, if◌then◌else◌,
}
use coreax.Text.{trim}
use coreax.Value.{
  Value, undefined, str, array, object, no_elements, element, no_members, member, text, get,
  trimmed, is_text, is_true,
}
use coreax.Runtime.{Action, FailureMode, AdapterConfig, DecisionInput, DecisionOutput, protocol}
use coreax.Runtime.Normalize.{normalize_string_array, normalize}
use coreax.Runtime.Response.{parse_response, normalize_action}
use coreax.Runtime.Remote.{
  Answer, response, rejected, decided, try_once, should_retry, attempts, ask, fallback_decision,
  evaluate_run, evaluate,
}
use coreax.Runtime.Remote.Failover.{
  evaluate_run-bounds, evaluate-fails_closed, local_answer, evaluate-eq-local,
}

remote_adapter : Unit {0}
unfolding evaluate evaluate_run ask attempts try_once should_retry parse_response normalize_action
    normalize normalize_string_array trimmed is_text is_true text get trim fallback_decision
remote_adapter = tt

abbrev request : DecisionInput
request = record {
  protocol_version = undefined;
  request_id = undefined;
  context = record {
    execution_layer = undefined;
    tenant = undefined;
    server = str "srv";
    tool = str "write@1";
    node_id = undefined;
    run_id = undefined;
    metadata = undefined;
  };
  enforcement = record {
    mode = str "enforce";
    strategy = undefined;
    deny_on = undefined;
    force_deny = undefined;
  };
  input = record {
    reasons = array (element (str "a") no_elements);
    risk_tags = undefined;
    attributes = undefined;
  };
}

abbrev config : Option String → FailureMode → AdapterConfig
config endpoint mode = record {
  protocol_version = protocol;
  failure_mode = mode;
  endpoint = endpoint;
  max_retries = 1;
  retry_backoff_ms = 150;
}

abbrev allowing : Value
allowing = object (member "decision" (object (member "action" (str "allow") no_members)) no_members)

-- The first request meets a failing server, the second one is answered.
abbrev recovers : ℕ → Answer
recovers n = if num_eq n 1 then response 503 false none else response 200 true (some allowing)

abbrev down : ℕ → Answer
down n = rejected true none

runs :
    ((evaluate (config (some "u") FailureMode.deny) recovers request).decision ≡ Action.allow)
    × ((evaluate_run (config (some "u") FailureMode.deny) recovers request).1.sleeps ≡ 150 ∷ [])
    × ((evaluate (config (some "u") FailureMode.deny) down request).decision ≡ Action.deny)
    × ((evaluate_run (config (some "u") FailureMode.local) down request).1.outcome ≡ none)
unfolding remote_adapter
runs = (refl, refl, refl, refl)

evaluate_run-bounds_example :
    (1 ≤ (evaluate_run (config (some "u") FailureMode.deny) down request).1.requests)
    × ((evaluate_run (config (some "u") FailureMode.deny) down request).1.requests ≤ 1 + 1)
    × ((evaluate_run (config (some "u") FailureMode.deny) down request).1.requests
        ≡ suc (length (evaluate_run (config (some "u") FailureMode.deny) down request).1.sleeps))
evaluate_run-bounds_example =
    evaluate_run-bounds (config (some "u") FailureMode.deny) down request "u" refl

evaluate-fails_closed_example :
    (o : DecisionOutput) × (try_once
        (recovers (evaluate_run (config (some "u") FailureMode.deny) recovers request).1.requests)
      ≡ decided o)
    × (o.decision ≡ Action.allow)
evaluate-fails_closed_example =
    evaluate-fails_closed (config (some "u") FailureMode.deny) recovers request "u" refl refl runs.0

protocol-trimmed : trim protocol ≡ protocol
unfolding trim
protocol-trimmed = refl

evaluate-eq-local_example :
    evaluate (config (some "u") FailureMode.local) down request
    ≡ local_answer (config (some "u") FailureMode.local) request
evaluate-eq-local_example =
    evaluate-eq-local (config (some "u") FailureMode.local) down request protocol-trimmed refl
      (inr (refl, runs.3))
