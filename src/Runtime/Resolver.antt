-- ===== src/Runtime/Resolver.antt =====
-- src/runtime-adapter/resolver.ts: the configuration of an adapter, from what its caller gives and
-- from the environment of the process. Headers and key are left out.
pub mod Precedence
mod Tests
use coreax.Prelude.{
  ℕ, String, Bool, true, false, Option, none, some, get_or, or_else, num_eq, if◌then◌else◌,
}
use coreax.Value.{Value, undefined, str, trimmed, is_text}
use coreax.Runtime.{AdapterMode, FailureMode, protocol}
use coreax.Escalation.{Numeric, not_finite, negative, floor}

-- `RuntimeAdapterConfig`; none for a number that is null or undefined.
pub record GivenConfig : Type 0 where
  pub mode : Value
  pub protocol_version : Value
  pub failure_mode : Value
  pub endpoint : Value
  pub timeout_ms : Option Numeric
  pub max_retries : Option Numeric
  pub retry_backoff_ms : Option Numeric

-- The variables of `process.env`, undefined or a text.
pub record Environment : Type 0 where
  pub mode : Value
  pub failure_mode : Value
  pub remote_url : Value
  pub timeout_ms : Option Numeric
  pub max_retries : Option Numeric
  pub retry_backoff_ms : Option Numeric

pub record ResolvedConfig : Type 0 where
  pub mode : AdapterMode
  pub protocol_version : String
  pub failure_mode : FailureMode
  pub endpoint : Option String
  pub timeout_ms : ℕ
  pub max_retries : ℕ
  pub retry_backoff_ms : ℕ

pub read_mode : Value → Option AdapterMode
read_mode v =
    if is_text "local" v
    then some AdapterMode.local
    else (if is_text "remote" v then some AdapterMode.remote else none)

pub read_failure_mode : Value → Option FailureMode
read_failure_mode v =
    if is_text "local" v
    then some FailureMode.local
    else (if is_text "allow" v
        then some FailureMode.allow
        else (if is_text "deny" v then some FailureMode.deny else none))

-- `Number(undefined)` is not finite.
numeric : Option Numeric → Numeric
numeric o = get_or o not_finite

pub read_positive_int : Option Numeric → ℕ → ℕ
read_positive_int o fallback = elim (numeric o) [
  | not_finite ↦ fallback
  | negative ↦ fallback
  | floor n ↦ if num_eq n 0 then fallback else n
]

pub read_non_negative_int : Option Numeric → ℕ → ℕ
read_non_negative_int o fallback = elim (numeric o) [
  | not_finite ↦ fallback
  | negative ↦ fallback
  | floor n ↦ n
]

pub resolve_runtime_adapter_config : Environment → GivenConfig → ResolvedConfig
resolve_runtime_adapter_config env c = record {
  mode = get_or (or_else (read_mode c.mode) (read_mode env.mode)) AdapterMode.local;
  protocol_version = get_or (trimmed c.protocol_version) protocol;
  failure_mode =
      get_or (or_else (read_failure_mode c.failure_mode) (read_failure_mode env.failure_mode))
        FailureMode.local;
  endpoint = or_else (trimmed c.endpoint) (trimmed env.remote_url);
  timeout_ms = read_positive_int (or_else c.timeout_ms env.timeout_ms) 1500;
  max_retries = read_non_negative_int (or_else c.max_retries env.max_retries) 1;
  retry_backoff_ms = read_positive_int (or_else c.retry_backoff_ms env.retry_backoff_ms) 150;
}
