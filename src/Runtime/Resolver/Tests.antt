-- ===== src/Runtime/Resolver/Tests.antt =====
-- Configurations of src/runtime-adapter/resolver.ts, resolved in given environments.
use coreax.Prelude.{◌≤◌, none, some, ◌≡◌, refl, ◌⊎◌}
use coreax.Text.{trim}
use coreax.Value.{Value, undefined, str, trimmed, is_text}
use coreax.Runtime.{FailureMode}
use coreax.Escalation.{negative, floor}
use coreax.Runtime.Resolver.{
  GivenConfig, Environment, read_mode, read_failure_mode, numeric, read_positive_int,
  read_non_negative_int, resolve_runtime_adapter_config,
}
use coreax.Runtime.Resolver.Precedence.{
  as_given, resolve_runtime_adapter_config-as_given, resolve_runtime_adapter_config-allows,
}

resolver_computes : Unit {0}
unfolding resolve_runtime_adapter_config read_mode read_failure_mode read_positive_int
    read_non_negative_int numeric trimmed is_text trim
resolver_computes = tt

abbrev process_env : Environment
process_env = record {
  mode = str "remote";
  failure_mode = str "allow";
  remote_url = str " http://runtime ";
  timeout_ms = some (floor 0);
  max_retries = some negative;
  retry_backoff_ms = none;
}

abbrev given : Value → GivenConfig
given failure_mode = record {
  mode = undefined;
  protocol_version = undefined;
  failure_mode = failure_mode;
  endpoint = undefined;
  timeout_ms = none;
  max_retries = none;
  retry_backoff_ms = some (floor 20);
}

resolved :
    ((resolve_runtime_adapter_config process_env (given (str "deny"))).failure_mode
      ≡ FailureMode.deny)
    × ((resolve_runtime_adapter_config process_env (given undefined)).endpoint
        ≡ some "http://runtime")
    × ((resolve_runtime_adapter_config process_env (given undefined)).timeout_ms ≡ 1500)
    × ((resolve_runtime_adapter_config process_env (given undefined)).max_retries ≡ 1)
unfolding resolver_computes
resolved = (refl, refl, refl, refl)

resolve_runtime_adapter_config-as_given_example :
    (resolve_runtime_adapter_config process_env
        (as_given (resolve_runtime_adapter_config process_env (given undefined)))
      ≡ resolve_runtime_adapter_config process_env (given undefined))
    × (1 ≤ (resolve_runtime_adapter_config process_env (given undefined)).timeout_ms)
    × (1 ≤ (resolve_runtime_adapter_config process_env (given undefined)).retry_backoff_ms)
resolve_runtime_adapter_config-as_given_example =
    resolve_runtime_adapter_config-as_given process_env (given undefined)

allowing :
    (resolve_runtime_adapter_config process_env (given undefined)).failure_mode ≡ FailureMode.allow
unfolding resolver_computes
allowing = refl

resolve_runtime_adapter_config-allows_example :
    ((given undefined).failure_mode ≡ str "allow")
    ⊎ ((read_failure_mode (given undefined).failure_mode ≡ none)
        × (process_env.failure_mode ≡ str "allow"))
resolve_runtime_adapter_config-allows_example =
    resolve_runtime_adapter_config-allows process_env (given undefined) allowing
