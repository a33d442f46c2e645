-- ===== src/Runtime/Resolver/Precedence.antt =====
-- src/runtime-adapter/resolver.ts: what a configuration that was resolved has for certain.
use coreax.Prelude.{
  ℕ, ◌≤◌, String, Option, none, some, get_or, or_else, num_eq, if◌then◌else◌, ◌≡◌, refl, ap, ◌∙◌,
  ◌⊎◌, inl, inr, arith, Bool-cases, ◌==◌, eq_iff,
}
use coreax.Text.{trim}
use coreax.Text.Trim.{trim-trim}
use coreax.Value.{Value, undefined, str, trimmed, is_text}
use coreax.Runtime.{AdapterMode, FailureMode, protocol}
use coreax.Escalation.{Numeric, not_finite, negative, floor}
use coreax.Runtime.Resolver.{
  GivenConfig, Environment, ResolvedConfig, read_mode, read_failure_mode, numeric,
  read_positive_int, read_non_negative_int, resolve_runtime_adapter_config,
}

abbrev mode_text : AdapterMode → String
mode_text AdapterMode.local = "local"
mode_text AdapterMode.remote = "remote"

abbrev failure_text : FailureMode → String
failure_text FailureMode.local = "local"
failure_text FailureMode.allow = "allow"
failure_text FailureMode.deny = "deny"

abbrev value_of : Option String → Value
value_of none = undefined
value_of (some s) = str s

-- A resolved configuration, given again.
abbrev pub as_given : ResolvedConfig → GivenConfig
as_given r = record {
  mode = str (mode_text r.mode);
  protocol_version = str r.protocol_version;
  failure_mode = str (failure_text r.failure_mode);
  endpoint = value_of r.endpoint;
  timeout_ms = some (floor r.timeout_ms);
  max_retries = some (floor r.max_retries);
  retry_backoff_ms = some (floor r.retry_backoff_ms);
}

read_mode-mode_text : (m : AdapterMode) → read_mode (str (mode_text m)) ≡ some m
unfolding read_mode is_text
read_mode-mode_text AdapterMode.local = refl
read_mode-mode_text AdapterMode.remote = refl

read_failure_mode-failure_text :
    (m : FailureMode) → read_failure_mode (str (failure_text m)) ≡ some m
unfolding read_failure_mode is_text
read_failure_mode-failure_text FailureMode.local = refl
read_failure_mode-failure_text FailureMode.allow = refl
read_failure_mode-failure_text FailureMode.deny = refl

read_positive_int-positive :
    (o : Option Numeric) (fallback : ℕ) → 1 ≤ fallback → 1 ≤ read_positive_int o fallback
unfolding read_positive_int
read_positive_int-positive o fallback h = go (numeric o)
  where
    go :
        (n : Numeric)
        → 1 ≤ elim n [
          | not_finite ↦ fallback
          | negative ↦ fallback
          | floor n ↦ if num_eq n 0 then fallback else n
        ]
    go not_finite = h
    go negative = h
    go (floor n) = ground arith

read_positive_int-floor : (n fallback : ℕ) → 1 ≤ n → read_positive_int (some (floor n)) fallback ≡ n
unfolding read_positive_int numeric
read_positive_int-floor n fallback h = ground arith

read_failure_mode-allow :
    (v : Value) → read_failure_mode v ≡ some FailureMode.allow → v ≡ str "allow"
unfolding read_failure_mode is_text
read_failure_mode-allow (str s) h = elim (Bool-cases (s == "allow")) [
  | inl equal ↦ ap str ((eq_iff s "allow").0 equal)
  | inr differs ↦ absurd (ground arith)
]
read_failure_mode-allow _ h = cc

-- A value that was read is read again the same.
trimmed-trimmed : (v : Value) (s : String) → trimmed v ≡ some s → trimmed (str s) ≡ some s
unfolding trimmed
trimmed-trimmed (str t) s h = ground (arith, trim-trim t)
trimmed-trimmed _ s h = cc

read_again :
    (v w : Value)
    → or_else (trimmed (value_of (or_else (trimmed v) (trimmed w)))) (trimmed w)
      ≡ or_else (trimmed v) (trimmed w)
unfolding trimmed
read_again v w = go (trimmed v) refl (trimmed w) refl
  where
    go :
        (a : Option String)
        → trimmed v ≡ a
        → (b : Option String) → trimmed w ≡ b
        → or_else (trimmed (value_of (or_else a b))) b ≡ or_else a b
    go (some s) e b f = rw (trimmed-trimmed v s e) refl
    go none e (some t) f = rw (trimmed-trimmed w t f) refl
    go none e none f = refl

protocol-trimmed :
    (v : Value)
    → get_or (trimmed (str (get_or (trimmed v) protocol))) protocol ≡ get_or (trimmed v) protocol
unfolding trimmed trim
protocol-trimmed v = go (trimmed v) refl
  where
    go :
        (a : Option String)
        → trimmed v ≡ a
        → get_or (trimmed (str (get_or a protocol))) protocol ≡ get_or a protocol
    go (some s) e = rw (trimmed-trimmed v s e) refl
    go none e = refl

-- A resolved configuration is settled: given again in the same environment, it is resolved to itself,
-- and its pauses and timeouts are not zero.
pub resolve_runtime_adapter_config-as_given :
    (env : Environment) (c : GivenConfig)
    → (resolve_runtime_adapter_config env (as_given (resolve_runtime_adapter_config env c))
        ≡ resolve_runtime_adapter_config env c)
      × (1 ≤ (resolve_runtime_adapter_config env c).timeout_ms)
      × (1 ≤ (resolve_runtime_adapter_config env c).retry_backoff_ms)
unfolding resolve_runtime_adapter_config read_non_negative_int numeric
resolve_runtime_adapter_config-as_given env c =
    let timeout =
      read_positive_int-positive (or_else c.timeout_ms env.timeout_ms) 1500 (omega arith) in
    let backoff =
      read_positive_int-positive (or_else c.retry_backoff_ms env.retry_backoff_ms) 150
        (omega arith) in
    (
      rw
          (
            read_mode-mode_text
                (get_or (or_else (read_mode c.mode) (read_mode env.mode)) AdapterMode.local),
            read_failure_mode-failure_text (
                get_or
                  (or_else (read_failure_mode c.failure_mode) (read_failure_mode env.failure_mode))
                  FailureMode.local),
            protocol-trimmed c.protocol_version,
            read_again c.endpoint env.remote_url,
            read_positive_int-floor _ 1500 timeout,
            read_positive_int-floor _ 150 backoff,
          )
          refl,
      timeout,
      backoff,
    )

-- Unreachable runtimes are allowed only where that was asked for: by the caller, or by the
-- environment where the caller names no failure mode.
pub resolve_runtime_adapter_config-allows :
    (env : Environment) (c : GivenConfig)
    → (resolve_runtime_adapter_config env c).failure_mode ≡ FailureMode.allow
    → (c.failure_mode ≡ str "allow")
      ⊎ ((read_failure_mode c.failure_mode ≡ none) × (env.failure_mode ≡ str "allow"))
unfolding resolve_runtime_adapter_config
resolve_runtime_adapter_config-allows env c h =
    go (read_failure_mode c.failure_mode) refl (read_failure_mode env.failure_mode) refl h
  where
    go :
        (a : Option FailureMode)
        → read_failure_mode c.failure_mode ≡ a
        → (b : Option FailureMode) → read_failure_mode env.failure_mode ≡ b
        → get_or (or_else a b) FailureMode.local ≡ FailureMode.allow
        → (c.failure_mode ≡ str "allow")
          ⊎ ((read_failure_mode c.failure_mode ≡ none) × (env.failure_mode ≡ str "allow"))
    go (some m) e b f k = inl (read_failure_mode-allow c.failure_mode (e ∙ ap some k))
    go none e (some m) f k = inr (e, read_failure_mode-allow env.failure_mode (f ∙ ap some k))
    go none e none f k = cc
