-- ===== src/Guard/Legacy/Tests.antt =====
-- Decisions of src/guard/policy.ts by given policy objects.
use coreax.Prelude.{String, true, false, Option, none, some, ◌==◌, elem, ◌≡◌, refl}
use coreax.Text.{trim}
use coreax.Value.{
  Value, undefined, str, bool, array, no_elements, element, text, trimmed, truthy, is_true,
}
use coreax.Guard.{Outcome, allow, block, escalate, tool_call, Input, Decision}
use coreax.Guard.Rules.{Services, read_target}
use coreax.Policy.{before, behind, strip_prefix, matches_allowlist}
use coreax.Guard.Legacy.{
  PolicyObject, Scan, normalize_policy_reason_token, seen_with, collect_reasons,
  normalize_policy_reason_array, filled, parsed_colon, parsed_server, parse_mcp_target,
  allowlist_of, tool_violation, violation_of, redacted_of, escalated_reasons, redact_or_allow,
  outcome_of, decision_on, evaluate_policy_object,
}
use coreax.Guard.Legacy.Denied.{tool_ref_of, Stops, evaluate_policy_object-unlisted}

legacy_computes : Unit {0}
unfolding evaluate_policy_object decision_on outcome_of redact_or_allow escalated_reasons
    redacted_of violation_of tool_violation allowlist_of parse_mcp_target parsed_server parsed_colon
    filled normalize_policy_reason_array collect_reasons seen_with normalize_policy_reason_token
    matches_allowlist before behind strip_prefix read_target trimmed truthy is_true text trim
legacy_computes = tt

abbrev services : Services
services = record {
  expression = λ pattern value. some (pattern == value);
  to_lower_case = λ s. s;
  redact_content = λ content patterns replacement. replacement;
}

abbrev clean : Input → Scan
clean i = record { has_findings = false; should_block = false }

abbrev unknown : String → Option String
unknown target = none

abbrev one : String → Value
one s = array (element (str s) no_elements)

abbrev strict : Value → PolicyObject
strict approve = record {
  tools_allowlist = one "mcp://fs";
  egress_allowlist = undefined;
  redact_outputs = undefined;
  deny_on = one "tool_in_denylist";
  escalate_on = undefined;
  approve_high_risk = approve;
}

abbrev call : String → Input
call target = record {
  kind = tool_call;
  content = undefined;
  target = str target;
  context_target = undefined;
  tags = undefined;
}

outcome_given : Option Decision → Option Outcome
outcome_given none = none
outcome_given (some d) = some d.outcome

decisions :
    (outcome_given
        (evaluate_policy_object services unknown clean (strict undefined) (call "net:fetch@1"))
      ≡ some block)
    × (outcome_given (
          evaluate_policy_object services unknown clean
            (strict (bool true))
            (call "mcp://net/fetch@1"))
        ≡ some escalate)
    × (outcome_given
          (evaluate_policy_object services unknown clean (strict undefined) (call "fs:read@1"))
        ≡ some allow)
unfolding legacy_computes outcome_given
decisions = (refl, refl, refl)

named : (tool_ref_of (read_target (call "net:fetch@1")) == "") ≡ false
unfolding legacy_computes
named = refl

unlisted :
    matches_allowlist
      (allowlist_of (strict undefined).tools_allowlist)
      (tool_ref_of (read_target (call "net:fetch@1")))
      (parse_mcp_target (read_target (call "net:fetch@1"))).server_name
    ≡ false
unfolding legacy_computes
unlisted = refl

denied :
    elem "tool_not_in_allowlist" (normalize_policy_reason_array (strict undefined).deny_on) ≡ true
unfolding legacy_computes
denied = refl

evaluate_policy_object-unlisted_example :
    (d : Decision) × (evaluate_policy_object services unknown clean
        (strict undefined)
        (call "net:fetch@1")
      ≡ some d)
    × Stops d.outcome
evaluate_policy_object-unlisted_example =
    evaluate_policy_object-unlisted services unknown clean (strict undefined) (call "net:fetch@1")
      refl named unlisted denied
