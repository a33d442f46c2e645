-- ===== src/Escalation.antt =====
-- src/review-loop/config.ts and errors.ts: the settings and the statuses of an escalation. Times are
-- numbers of milliseconds; the ISO texts that the sources make of them are not modelled.
pub mod Waiter
pub mod Manager
use coreax.Prelude.{
  ℕ, String, Bool, ◌||◌, Option, none, some, List, ◌==◌, or_else, max, if◌then◌else◌,
}
use coreax.Text.{trim, lower_is}
use coreax.Value.{Value, str, text, trimmed}

-- What `Number(raw)` gives, by its floor.
pub data Numeric : Type 0 where
  not_finite negative : Numeric
  floor : ℕ → Numeric

unfoldable pub normalize_positive_int : Numeric → ℕ → ℕ → ℕ
normalize_positive_int not_finite fallback minimum = fallback
normalize_positive_int negative fallback minimum = minimum
normalize_positive_int (floor n) fallback minimum = max minimum n

unfoldable pub normalize_non_negative_int : Numeric → ℕ → ℕ
normalize_non_negative_int not_finite fallback = fallback
normalize_non_negative_int negative fallback = 0
normalize_non_negative_int (floor n) fallback = n

-- `EscalationResolution["status"]`
pub data Status : Type 0 where
  approved rejected expired timeout : Status

unfoldable pub map_resolution_status : String → Option Status
map_resolution_status status =
    let normalized = trim status in
    if lower_is normalized "approved"
    then some approved
    else if lower_is normalized "rejected"
    then some rejected
    else if lower_is normalized "expired"
    then some expired
    else none

unfoldable pub is_escalation_terminal : String → Bool
is_escalation_terminal status =
    let normalized = trim status in
    lower_is normalized "approved"
    || lower_is normalized "rejected"
    || lower_is normalized "expired"

-- `EscalationStatusResult`, as far as the waiter reads it; an empty status is `none`.
pub record Details : Type 0 where
  pub status : Option String
  pub finalization_reason : Option String

pub record Metadata : Type 0 where
  pub attempts : ℕ
  pub retry_count : ℕ
  pub started_at : ℕ
  pub resolved_at : ℕ
  pub elapsed_ms : ℕ
  pub last_known_status : Option String
  pub finalization_reason : Option String

pub record Resolution : Type 0 where
  pub escalation_id : String
  pub status : Status
  pub details : Option Details
  pub metadata : Metadata

-- `ResolvedEscalationManagerConfig`, without the callbacks, which are in the environment.
pub record Config : Type 0 where
  pub tenant : Option String
  pub timeout_ms : ℕ
  pub poll_interval_ms : ℕ
  pub max_retries : ℕ
  pub retry_backoff_ms : ℕ

-- The numbers and the tenant of `EscalationManagerConfig` and of `EscalationWaitOptions`.
pub record Options : Type 0 where
  pub tenant : Value
  pub timeout_ms : Numeric
  pub poll_interval_ms : Numeric
  pub max_retries : Numeric
  pub retry_backoff_ms : Numeric

unfoldable pub resolve_config : Options → Config
unfolding normalize_positive_int normalize_non_negative_int trimmed
resolve_config o = record {
  tenant = trimmed o.tenant;
  timeout_ms = normalize_positive_int o.timeout_ms 600000 1;
  poll_interval_ms = normalize_positive_int o.poll_interval_ms 2000 1;
  max_retries = normalize_non_negative_int o.max_retries 3;
  retry_backoff_ms = normalize_positive_int o.retry_backoff_ms 250 1;
}

-- The settings of one wait: the options over the configuration.
unfoldable pub wait_config : Config → Options → Config
unfolding normalize_positive_int normalize_non_negative_int trimmed
wait_config c o = record {
  tenant = or_else (trimmed o.tenant) c.tenant;
  timeout_ms = normalize_positive_int o.timeout_ms c.timeout_ms 1;
  poll_interval_ms = normalize_positive_int o.poll_interval_ms c.poll_interval_ms 1;
  max_retries = normalize_non_negative_int o.max_retries c.max_retries;
  retry_backoff_ms = normalize_positive_int o.retry_backoff_ms c.retry_backoff_ms 1;
}

-- The callbacks that a manager is given act on a world of their own.
pub data Got {ℓ} (A : Type ℓ) : Type ℓ where
  returned : A → Got A
  threw : (message : Option String) → Got A

-- An empty message reads as none: `error?.message || fallback`.
pub record Env (W : Type 0) : Type 0 where
  pub now : W → ℕ
  pub sleep : ℕ → W → W
  pub aborted : W → Bool
  pub get : (id : String) → (tenant : Option String) → W → Got (Option Details) × W
  -- the hooks, whose own errors are swallowed
  pub on_resolved : Resolution → W → W
  pub on_error : (operation message : String) → W → W
