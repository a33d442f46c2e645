-- ===== src/Runtime/Remote/Failover.antt =====
-- src/runtime-adapter/remoteAdapter.ts: how often the runtime is asked, and what is decided when it
-- does not answer.
use coreax.Prelude.{
  ℕ, zero, suc, ◌+◌, ◌≤◌, ◌<◌, String, Bool, false, Option, none, some, ◌≡◌, ◌⊎◌, inl, inr, refl,
  arith, max, ◌&&◌, Bool-cases, length, leb, get_or, ◌==◌,
}
use coreax.Text.{trim}
use coreax.Runtime.{
  Action, AdapterMode, Source, FailureMode, DecisionInput, DecisionOutput, AdapterConfig, protocol,
}
use coreax.Runtime.Normalize.{NormalInput, normalize, as_input}
use coreax.Runtime.Normalize.Idempotent.{normalize-as_input}
use coreax.Runtime.Local
use coreax.Runtime.Remote.{
  Answer, Tried, decided, failed, try_once, should_retry, attempts, fallen_back, fallback_decision,
  ask, evaluate_run, evaluate,
}

Tried-cases :
    (t : Tried)
    → ((o : DecisionOutput) × (t ≡ decided o)) ⊎ ((b : Bool) × (s : Option ℕ) × (t ≡ failed b s))
Tried-cases (decided o) = inl (o, refl)
Tried-cases (failed b s) = inr (b, s, refl)

module _ (cfg : AdapterConfig) (net : ℕ → Answer) where
  -- The loop ends by its own test, before the attempts run out.
  attempts-bounds :
      (left attempt : ℕ)
      → attempt + left ≡ cfg.max_retries + 2
      → 0 < left
      → (1 ≤ (attempts cfg net left attempt).requests)
        × ((attempts cfg net left attempt).requests ≤ left)
        × ((attempts cfg net left attempt).requests
            ≡ suc (length (attempts cfg net left attempt).sleeps))
  unfolding attempts
  attempts-bounds zero attempt e h = elim h [ ]
  attempts-bounds (suc zero) attempt e h = ground arith
  attempts-bounds (suc (suc left)) attempt e h =
      ground (arith, attempts-bounds (suc left) (suc attempt))

  attempts-some :
      (left attempt : ℕ) (o : DecisionOutput)
      → (attempts cfg net left attempt).outcome ≡ some o
      → (k : ℕ) × (try_once (net k) ≡ decided o)
        × (k + 1 ≡ attempt + (attempts cfg net left attempt).requests)
  unfolding attempts
  attempts-some zero attempt o h = cc
  attempts-some (suc left) attempt o h = elim (Tried-cases (try_once (net attempt))) [
    | inl (given, e) ↦ (attempt, ground arith, ground arith)
    | inr (b, s, e) ↦ elim (Bool-cases (should_retry b s && leb attempt cfg.max_retries)) [
      | inl more ↦
          let (k, here, counted) = attempts-some left (suc attempt) o (ground arith) in
          (k, here, ground arith)
      | inr stop ↦ ground arith
    ]
  ]

module _ (cfg : AdapterConfig) (net : ℕ → Answer) (n : NormalInput) where
  ask-bounds :
      (url : String)
      → (1 ≤ (ask cfg net n (some url)).1.requests)
        × ((ask cfg net n (some url)).1.requests ≤ cfg.max_retries + 1)
        × ((ask cfg net n (some url)).1.requests ≡ suc (length (ask cfg net n (some url)).1.sleeps))
  unfolding ask
  ask-bounds url =
      let (least, most, pauses) =
        attempts-bounds cfg net (max 1 (cfg.max_retries + 1)) 1 (omega arith) (omega arith) in
      (least, omega arith, pauses)

  answered_or_fallback :
      (outcome : Option DecisionOutput)
      → cfg.failure_mode ≡ FailureMode.deny
      → (get_or outcome (fallback_decision cfg n)).decision ≡ Action.allow
      → (o : DecisionOutput) × (outcome ≡ some o) × (o.decision ≡ Action.allow)
  unfolding fallback_decision
  answered_or_fallback none mode h = ground arith
  answered_or_fallback (some o) mode h = (o, refl, h)

  ask-fails_closed :
      (url : String)
      → cfg.failure_mode ≡ FailureMode.deny
      → (ask cfg net n (some url)).0.decision ≡ Action.allow
      → (o : DecisionOutput) × (try_once (net (ask cfg net n (some url)).1.requests) ≡ decided o)
        × (o.decision ≡ Action.allow)
  unfolding ask
  ask-fails_closed url mode h =
      let (o, answered, allowed) = answered_or_fallback _ mode h in
      let (k, here, counted) = attempts-some cfg net (max 1 (cfg.max_retries + 1)) 1 o answered in
      (o, ground arith, allowed)

-- With an endpoint there is at least one request and at most one more than the retries, and between
-- two requests there is one pause.
pub evaluate_run-bounds :
    (cfg : AdapterConfig) (net : ℕ → Answer) (i : DecisionInput) (url : String)
    → cfg.endpoint ≡ some url
    → (1 ≤ (evaluate_run cfg net i).1.requests)
      × ((evaluate_run cfg net i).1.requests ≤ cfg.max_retries + 1)
      × ((evaluate_run cfg net i).1.requests ≡ suc (length (evaluate_run cfg net i).1.sleeps))
evaluate_run-bounds cfg net i url e =
    unfold evaluate_run in ground (arith, ask-bounds cfg net (normalize cfg.protocol_version i) url)

-- Set to deny on failure, and with an endpoint, the adapter allows a request only if the runtime was
-- reached and the last of its answers was a valid decision to allow.
pub evaluate-fails_closed :
    (cfg : AdapterConfig) (net : ℕ → Answer) (i : DecisionInput) (url : String)
    → cfg.endpoint ≡ some url
    → cfg.failure_mode ≡ FailureMode.deny
    → (evaluate cfg net i).decision ≡ Action.allow
    → (o : DecisionOutput) × (try_once (net (evaluate_run cfg net i).1.requests) ≡ decided o)
      × (o.decision ≡ Action.allow)
unfolding evaluate evaluate_run
evaluate-fails_closed cfg net i url e mode allowed = closed cfg.endpoint e allowed
  where
    n : NormalInput
    n = normalize cfg.protocol_version i

    closed :
        (ep : Option String)
        → ep ≡ some url
        → (ask cfg net n ep).0.decision ≡ Action.allow
        → (o : DecisionOutput) × (try_once (net (ask cfg net n ep).1.requests) ≡ decided o)
          × (o.decision ≡ Action.allow)
    closed none h k = cc
    closed (some u) h k = ask-fails_closed cfg net n u mode k

-- What the local adapter answers, under the labels of the fallback and the configured version.
abbrev pub local_answer : AdapterConfig → DecisionInput → DecisionOutput
local_answer cfg i = record (Local.evaluate i) {
  protocol_version = (normalize cfg.protocol_version i).protocol_version;
  adapter_mode = AdapterMode.remote;
  source = Source.fallback_local;
}

fallen_back-local :
    (cfg : AdapterConfig) (i : DecisionInput)
    → trim cfg.protocol_version ≡ cfg.protocol_version
    → (cfg.protocol_version == "") ≡ false
    → fallen_back (Local.evaluate (as_input (normalize cfg.protocol_version i)))
      ≡ local_answer cfg i
unfolding Local.evaluate
fallen_back-local cfg i t f =
    rw (normalize-as_input cfg.protocol_version protocol i t f) (unfold normalize in refl)

-- With no endpoint, or when no attempt was answered and the local fallback is set, the adapter
-- answers as the local one does on the request as it came, but for the labels of the fallback and
-- the configured protocol version. That version is trimmed and not empty.
pub evaluate-eq-local :
    (cfg : AdapterConfig) (net : ℕ → Answer) (i : DecisionInput)
    → trim cfg.protocol_version ≡ cfg.protocol_version
    → (cfg.protocol_version == "") ≡ false
    → (cfg.endpoint ≡ none)
      ⊎ ((cfg.failure_mode ≡ FailureMode.local) × ((evaluate_run cfg net i).1.outcome ≡ none))
    → evaluate cfg net i ≡ local_answer cfg i
unfolding evaluate evaluate_run
evaluate-eq-local cfg net i t f = local_for cfg.endpoint
  where
    n : NormalInput
    n = normalize cfg.protocol_version i

    same : fallen_back (Local.evaluate (as_input n)) ≡ local_answer cfg i
    same = fallen_back-local cfg i t f

    local_for :
        (ep : Option String)
        → (ep ≡ none)
          ⊎ ((cfg.failure_mode ≡ FailureMode.local) × ((ask cfg net n ep).1.outcome ≡ none))
        → (ask cfg net n ep).0 ≡ local_answer cfg i
    local_for none h = unfold ask in same
    local_for (some u) (inl h) = cc
    local_for (some u) (inr (mode, silent)) = unfold ask fallback_decision in rw (silent, mode) same
