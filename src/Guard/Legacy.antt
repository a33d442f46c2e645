-- ===== src/Guard/Legacy.antt =====
-- src/guard/policy.ts: the decision by the policy object of a gateway. The scan of a message and the
-- host name of a URL are arguments, besides those of the rules.
pub mod Denied
mod Tests
use coreax.Prelude.{
  String, Bool, true, false, not, ◌&&◌, ◌||◌, Option, none, some, List, [], ◌∷◌, ◌++◌, map, ◌==◌,
  get_or, or_else, any, elem, is_empty, is_some, if◌then◌else◌,
}
use mathlib.Core.Option
use coreax.Text.{trim}
use coreax.Value.{Value, undefined, str, array, no_elements, element, elements, is_true}
use coreax.Guard.{
  Outcome, allow, redact, block, escalate, Kind, message_outbound, tool_call, mcp_call, api_call,
  Input, Decision,
}
use coreax.Guard.Rules.{Services, text_or_blank, read_target, wildcard_match}
use coreax.Policy.{before, behind, strip_prefix, slash, matches_allowlist}

pub record PolicyObject : Type 0 where
  pub tools_allowlist : Value
  pub egress_allowlist : Value
  pub redact_outputs : Value
  pub deny_on : Value
  pub escalate_on : Value
  pub approve_high_risk : Value

pub record Scan : Type 0 where
  pub has_findings : Bool
  pub should_block : Bool

pub normalize_policy_reason_token : Value → String
normalize_policy_reason_token v =
    let normalized = trim (text_or_blank v) in
    if normalized == "idempotency_missing"
    then "missing_idempotency_for_side_effect"
    else (if normalized == "tool_in_denylist" then "tool_not_in_allowlist" else normalized)

-- The set grows in the order of the values.
seen_with : List String → String → List String
seen_with seen r = if r == "" || elem r seen then seen else seen ++ (r ∷ [])

pub collect_reasons : List String → List Value → List String
collect_reasons seen [] = seen
collect_reasons seen (v ∷ vs) =
    collect_reasons (seen_with seen (normalize_policy_reason_token v)) vs

pub normalize_policy_reason_array : Value → List String
normalize_policy_reason_array (array vs) = collect_reasons [] (elements vs)
normalize_policy_reason_array _ = []

pub record ParsedTarget : Type 0 where
  pub server_name : Option String
  pub tool_name_at_version : Option String

-- `s || undefined`
filled : String → Option String
filled s = if s == "" then none else some s

parsed_colon : String → Option String → ParsedTarget
parsed_colon raw none = record { server_name = none; tool_name_at_version = some raw }
parsed_colon raw (some rest) = elim (filled (before 58 rest)) [
  | none ↦ record { server_name = none; tool_name_at_version = some raw }
  | some tool ↦ record { server_name = filled (before 58 raw); tool_name_at_version = some tool }
]

parsed_server : String → Option String → ParsedTarget
parsed_server raw none = parsed_colon raw (behind 58 raw)
parsed_server raw (some body) = elim (behind slash body) [
  | none ↦ parsed_colon raw (behind 58 raw)
  | some tool ↦ record {
    server_name = filled (before slash body);
    tool_name_at_version = filled tool;
  }
]

pub parse_mcp_target : String → ParsedTarget
parse_mcp_target target =
    let raw = trim target in
    if raw == ""
    then record { server_name = none; tool_name_at_version = none }
    else parsed_server raw (strip_prefix "mcp://" raw)

pub allowlist_of : Value → Value
allowlist_of (array vs) = array vs
allowlist_of _ = array (element (str "*") no_elements)

texts_of : Value → List Value
texts_of (array vs) = elements vs
texts_of _ = []

pub tool_violation : PolicyObject → String → Option String
tool_violation p target =
    let parsed = parse_mcp_target target in
    let tool_ref = get_or parsed.tool_name_at_version target in
    if tool_ref == ""
      || matches_allowlist (allowlist_of p.tools_allowlist) tool_ref parsed.server_name
    then none
    else some "tool_not_in_allowlist"

module _ (sv : Services) (hostname : String → Option String) (scan_output : Input → Scan) where
  -- In here an error, of the URL or of a pattern, is caught and counts as a violation.
  outside : String → List String → Bool
  outside target egress = elim (hostname target) [
    | none ↦ true
    | some host ↦ not (get_or (wildcard_match sv host egress) false)
  ]

  -- `none` is the error of a pattern that makes no expression.
  pub egress_violation : PolicyObject → String → Option (Option String)
  egress_violation p target =
      let egress = map text_or_blank (texts_of p.egress_allowlist) in
      if target == "" || is_empty egress
      then some none
      else elim (wildcard_match sv target egress) [
        | none ↦ none
        | some true ↦ some none
        | some false ↦ some (if outside target egress then some "egress_violation" else none)
      ]

  pub violation_of : PolicyObject → Input → Option (Option String)
  violation_of p i = elim i.kind [
    | tool_call ↦ some (tool_violation p (read_target i))
    | mcp_call ↦ some (tool_violation p (read_target i))
    | api_call ↦ egress_violation p (read_target i)
    | message_outbound ↦
        some (if (scan_output i).should_block then some "agent_guard_failed" else none)
  ]

  pub redacted_of : PolicyObject → Input → Option String
  redacted_of p i = elim i.kind [
    | message_outbound ↦
        if is_true p.redact_outputs && (scan_output i).has_findings
        then some (sv.redact_content i.content undefined "[REDACTED]")
        else none
    | _ ↦ none
  ]

  escalated_reasons : PolicyObject → List String
  escalated_reasons p = elim p.escalate_on [
    | array vs ↦ normalize_policy_reason_array (array vs)
    | _ ↦ normalize_policy_reason_array p.deny_on
  ]

  -- `redactedContent` is a value that is not empty.
  redact_or_allow : Option String → Outcome
  redact_or_allow none = allow
  redact_or_allow (some s) = if s == "" then allow else redact

  pub outcome_of : PolicyObject → Option String → Option String → Outcome
  outcome_of p none redacted = redact_or_allow redacted
  outcome_of p (some v) redacted =
      if is_true p.approve_high_risk && elem v (escalated_reasons p)
      then escalate
      else (if elem v (normalize_policy_reason_array p.deny_on)
          then block
          else redact_or_allow redacted)

  pub decision_on : PolicyObject → Input → Option String → Decision
  decision_on p i violation = record {
    outcome = outcome_of p violation (redacted_of p i);
    reason = violation;
    reasons = elim violation [ none ↦ [] | some v ↦ v ∷ [] ];
    violation = violation;
    redacted_content = elim (redacted_of p i) [ none ↦ none | some s ↦ filled s ];
  }

  pub evaluate_policy_object : PolicyObject → Input → Option Decision
  evaluate_policy_object p i = Option.map (decision_on p i) (violation_of p i)
