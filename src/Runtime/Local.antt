-- ===== src/Runtime/Local.antt =====
-- src/runtime-adapter/localAdapter.ts and mappers.ts: the decision made in the process itself.
pub mod Denials
mod Tests
use coreax.Prelude.{
  String, Bool, true, false, not, ◌&&◌, Option, none, some, List, [], ◌∷◌, any, find, head, elem,
  is_empty, or_else, if◌then◌else◌,
}
use coreax.Runtime.{
  Action, allow, deny, escalate, clarify, local, Mode, observe, enforce, Strategy, deny_on_match,
  deny_on_any, Source, DecisionInput, DecisionOutput, Obligation, AuditRef, protocol,
}
use coreax.Runtime.{AdapterMode}
use coreax.Value.{array}
use coreax.Runtime.Normalize.{
  NormalInput, normalize, as_input, normalize_string_array, string_items,
}

pub pick_from : Strategy → (deny_on reasons : List String) → Option String
pick_from deny_on_any ds rs = head rs
pick_from deny_on_match ds rs =
    if is_empty ds then head rs else or_else (find (λ r. elem r ds) rs) (head rs)

unfoldable pub pick_deny_reason : NormalInput → Option String
unfolding pick_from
pick_deny_reason n = pick_from n.strategy n.deny_on n.reasons

-- The branches of `evaluate` that set `deny` in enforcing mode.
pub matches : Strategy → (deny_on reasons : List String) → Bool
matches deny_on_any ds rs = not (is_empty rs)
matches deny_on_match ds rs = if is_empty ds then not (is_empty rs) else any (λ r. elem r ds) rs

abbrev is_enforcing : Mode → Bool
is_enforcing observe = false
is_enforcing enforce = true

-- The `deny` that `evaluate` computes.
unfoldable pub denies : NormalInput → Bool
unfolding matches
denies n =
    if n.force_deny && not (is_empty n.reasons)
    then true
    else if is_enforcing n.mode
    then matches n.strategy n.deny_on n.reasons
    else false

-- `LocalRuntimeAdapter.evaluate`, from the normal form on.
unfoldable pub decide : NormalInput → DecisionOutput
unfolding denies pick_deny_reason
decide n = record {
  protocol_version = n.protocol_version;
  adapter_mode = AdapterMode.local;
  source = Source.local;
  decision = if denies n then Action.deny else Action.allow;
  reason = if denies n then pick_deny_reason n else none;
  reasons = n.reasons;
  obligations = [];
  audit_refs = [];
}

unfoldable pub evaluate : DecisionInput → DecisionOutput
unfolding decide
evaluate input = decide (normalize protocol input)

-- `mapRuntimeDecisionToEnforcement`: what a caller acts on.
pub record EnforcementView : Type 0 where
  pub should_block : Bool
  pub should_deny : Bool
  pub decision : Action
  pub reason : Option String
  pub reasons : List String
  pub obligations : List Obligation
  pub audit_refs : List AuditRef
  pub source : Source
  pub adapter_mode : AdapterMode

abbrev is_allow : Action → Bool
is_allow Action.allow = true
is_allow _ = false

abbrev is_deny : Action → Bool
is_deny Action.deny = true
is_deny _ = false

unfoldable pub enforcement_of : DecisionOutput → EnforcementView
enforcement_of o = record {
  should_block = not (is_allow o.decision);
  should_deny = is_deny o.decision;
  decision = o.decision;
  reason = o.reason;
  reasons = normalize_string_array (array (string_items o.reasons));
  obligations = o.obligations;
  audit_refs = o.audit_refs;
  source = o.source;
  adapter_mode = o.adapter_mode;
}
