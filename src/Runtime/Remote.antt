-- ===== src/Runtime/Remote.antt =====
-- src/runtime-adapter/remoteAdapter.ts: the requests to a remote runtime, their repetition and the
-- fallback. What the network answers to the n-th request is the argument `net`.
pub mod Failover
mod Tests
use coreax.Prelude.{
  ℕ, zero, suc, ◌+◌, ◌*◌, max, String, Bool, true, false, ◌&&◌, ◌||◌, Option, none, some, List, [],
  ◌∷◌, ◌++◌, leb, num_eq, or_else, get_or, if◌then◌else◌,
}
use coreax.Value.{Value}
use coreax.Runtime.{
  Action, AdapterMode, Source, FailureMode, DecisionInput, DecisionOutput, AdapterConfig,
}
use coreax.Runtime.Normalize.{NormalInput, normalize, as_input}
use coreax.Runtime.Local
use coreax.Runtime.Response.{parse_response}

-- A response with its `ok` flag, and its body if that is JSON; or a rejection of `fetch`, which may
-- be no object and may bring a status code.
pub data Answer : Type 0 where
  response : (status : ℕ) (ok : Bool) (body : Option Value) → Answer
  rejected : (is_object : Bool) (status : Option ℕ) → Answer

-- One attempt: the decision, or the error with what `shouldRetry` reads of it.
pub data Tried : Type 0 where
  decided : DecisionOutput → Tried
  failed : (is_object : Bool) (status : Option ℕ) → Tried

-- The label of a remote decision; a parsed protocol version is never empty.
abbrev as_remote : DecisionOutput → DecisionOutput
as_remote o = record o { adapter_mode = AdapterMode.remote; source = Source.remote }

parsed_or_failed : ℕ → Option DecisionOutput → Tried
parsed_or_failed status none = failed true (some status)
parsed_or_failed status (some o) = decided (as_remote o)

unfoldable pub try_once : Answer → Tried
unfolding parsed_or_failed
try_once (response status false body) = failed true (some status)
try_once (response status true none) = failed true (some status)
try_once (response status true (some payload)) =
    parsed_or_failed status (parse_response payload AdapterMode.remote)
try_once (rejected is_object status) = failed is_object status

-- Every error object is repeated, whatever its name and code.
unfoldable pub should_retry : Bool → Option ℕ → Bool
should_retry is_object (some code) = num_eq code 429 || leb 500 code
should_retry is_object none = is_object

pub record Run : Type 0 where
  pub outcome : Option DecisionOutput
  pub requests : ℕ
  pub sleeps : List ℕ

abbrev slept : ℕ → Run → Run
slept ms r = record r { requests = suc r.requests; sleeps = ms ∷ r.sleeps }

-- The `for` loop, with `left` attempts to go; the last error is not kept, nothing reads it.
module _ (cfg : AdapterConfig) (net : ℕ → Answer) where
  attempts : ℕ → ℕ → Run
  attempts zero attempt = record { outcome = none; requests = 0; sleeps = [] }
  attempts (suc left) attempt =
      let backoff = cfg.retry_backoff_ms * attempt in
      let again = slept backoff (attempts left (suc attempt)) in
      elim (try_once (net attempt)) [
        | decided o ↦ record { outcome = some o; requests = 1; sleeps = [] }
        | failed is_object status ↦
            if should_retry is_object status && leb attempt cfg.max_retries
            then again
            else record { outcome = none; requests = 1; sleeps = [] }
      ]

abbrev fallen_back : DecisionOutput → DecisionOutput
fallen_back o = record o { adapter_mode = AdapterMode.remote; source = Source.fallback_local }

abbrev unavailable : AdapterConfig → NormalInput → Source → Action → String → DecisionOutput
unavailable cfg n source action reason = record {
  protocol_version = cfg.protocol_version;
  adapter_mode = AdapterMode.remote;
  source = source;
  decision = action;
  reason = some reason;
  reasons = n.reasons;
  obligations = [];
  audit_refs = [];
}

unfoldable pub fallback_decision : AdapterConfig → NormalInput → DecisionOutput
fallback_decision cfg n = elim cfg.failure_mode [
  | FailureMode.allow ↦
      unavailable cfg n Source.fallback_allow Action.allow
        "runtime_remote_unavailable_fallback_allow"
  | FailureMode.deny ↦
      unavailable cfg n Source.fallback_deny Action.deny "runtime_remote_unavailable_fallback_deny"
  | FailureMode.local ↦ fallen_back (Local.evaluate (as_input n))
]

-- `evaluate` behind the normal form, with the number of requests and the pauses between them.
pub ask : AdapterConfig → (ℕ → Answer) → NormalInput → Option String → DecisionOutput × Run
ask cfg net n none = (
  fallen_back (Local.evaluate (as_input n)),
  record { outcome = none; requests = 0; sleeps = [] },
)
ask cfg net n (some url) =
    let run = attempts cfg net (max 1 (cfg.max_retries + 1)) 1 in
    (get_or run.outcome (fallback_decision cfg n), run)

pub evaluate_run : AdapterConfig → (ℕ → Answer) → DecisionInput → DecisionOutput × Run
evaluate_run cfg net input = ask cfg net (normalize cfg.protocol_version input) cfg.endpoint

pub evaluate : AdapterConfig → (ℕ → Answer) → DecisionInput → DecisionOutput
evaluate cfg net input = (evaluate_run cfg net input).0
