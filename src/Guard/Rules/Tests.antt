-- ===== src/Guard/Rules/Tests.antt =====
-- Decisions of a policy of src/guard/policy.ts at given inputs.
use coreax.Prelude.{
  String, true, false, Option, none, some, if◌then◌else◌, List, [], ◌∷◌, ◌==◌, ◌≡◌, ◌≢◌, refl, ◌++◌,
}
use coreax.Text.{trim}
use coreax.Value.{Value, undefined, str, array, no_elements, element, text, trimmed, truthy}
use coreax.Guard.{Outcome, allow, block, escalate, tool_call, message_outbound, Input, Decision}
use coreax.Guard.Rules.{
  Services, Rule, read_target, normalize_rule_kinds, is_word, default_decision, reason_of,
  wildcard_match, some_match, matches_pattern, allows_target, tags_match, applies, decision_of,
  first_match, evaluate_guard_policy_rule,
}
use coreax.Guard.Rules.First.{
  policy, RestsOn, evaluate_guard_policy_rule-first, evaluate_guard_policy_rule-blocks,
}

rules_compute : Unit {0}
unfolding evaluate_guard_policy_rule first_match decision_of applies tags_match wildcard_match
    some_match matches_pattern allows_target reason_of default_decision is_word truthy
    normalize_rule_kinds read_target trimmed text trim
rules_compute = tt

-- Expressions that are literal texts.
abbrev literal : Services
literal = record {
  expression = λ pattern value. if pattern == "?x" then none else some (pattern == value);
  to_lower_case = λ s. s;
  redact_content = λ content patterns replacement. replacement;
}

abbrev on_target : String → Value → Outcome → Rule
on_target id target outcome = record {
  id = str id;
  kind = str "tool_call";
  target = target;
  tags_any = [];
  outcome = outcome;
  reason = undefined;
  violation = undefined;
  patterns = undefined;
  replacement = undefined;
}

abbrev call : String → Input
call target = record {
  kind = tool_call;
  content = undefined;
  target = str target;
  context_target = undefined;
  tags = undefined;
}

abbrev write_first : List Rule
write_first = on_target "w" (str "write") escalate ∷ []

abbrev read_next : Rule
read_next = on_target "r" (array (element (str " read ") no_elements)) allow

abbrev all_last : List Rule
all_last = on_target "a" (str "*") block ∷ []

reason_given : Option Decision → Option String
reason_given none = none
reason_given (some d) = d.reason

decisions :
    (reason_given
        (evaluate_guard_policy_rule literal (policy (str "allow") write_first) (call "write"))
      ≡ some "rule_w")
    × (reason_given
          (evaluate_guard_policy_rule literal (policy (str "block") write_first) (call "read"))
        ≡ some "policy_default_block")
    × (applies literal (on_target "a" (str "*") block) (call "anything") ≡ some true)
    × (applies literal (on_target "q" (str "?x") allow) (call "anything") ≡ none)
    × (applies literal
          (on_target "a" (str "write") block)
          (record (call "write") { kind = message_outbound })
        ≡ some false)
unfolding rules_compute reason_given
decisions = (refl, refl, refl, refl, refl)

skipped : applies literal (on_target "w" (str "write") escalate) (call "read") ≡ some false
unfolding rules_compute
skipped = refl

hit : applies literal read_next (call "read") ≡ some true
unfolding rules_compute
hit = refl

evaluate_guard_policy_rule-first_example :
    evaluate_guard_policy_rule literal
      (policy (str "allow") (write_first ++ (read_next ∷ all_last)))
      (call "read")
    ≡ some (decision_of literal read_next (call "read"))
evaluate_guard_policy_rule-first_example =
    evaluate_guard_policy_rule-first literal (call "read") (str "allow") write_first all_last
      read_next (skipped, tt) hit

abbrev allowed : Decision
allowed = record {
  outcome = allow;
  reason = some "rule_r";
  reasons = "rule_r" ∷ [];
  violation = none;
  redacted_content = none;
}

evaluated :
    evaluate_guard_policy_rule literal
      (policy (str "block") (write_first ++ (read_next ∷ all_last)))
      (call "read")
    ≡ some allowed
unfolding rules_compute
evaluated = refl

not_blocked : allowed.outcome ≢ block
not_blocked p = cc

evaluate_guard_policy_rule-blocks_example :
    RestsOn literal (call "read") (write_first ++ (read_next ∷ all_last)) allowed
evaluate_guard_policy_rule-blocks_example =
    evaluate_guard_policy_rule-blocks literal (call "read") (write_first ++ (read_next ∷ all_last))
      allowed evaluated not_blocked
