-- ===== src/Guard/Rules.antt =====
-- src/guard/policy.ts: a guard policy of rules, the first of which that applies decides. The regular
-- expression that a pattern is made into, the case folding of texts and the redaction of a content
-- are arguments. A pattern such as `?x` makes no expression: `none` is the error that is thrown then.
pub mod First
mod Tests
use coreax.Prelude.{
  String, Bool, true, false, not, ◌&&◌, ◌||◌, Option, none, some, List, [], ◌∷◌, map, ◌==◌, get_or,
  or_else, any, keep, elem, is_empty, if◌then◌else◌,
}
use Prim.Native.String
use coreax.Text.{trim}
use coreax.Value.{Value, str, array, elements, text, trimmed, truthy}
use coreax.Guard.{Outcome, redact, allow, block, Kind, kind_text, Input, Decision}

-- `String(v || "")`
abbrev pub text_or_blank : Value → String
text_or_blank v = if truthy v then text v else ""

pub record Services : Type 0 where
  -- the expression made of a trimmed pattern that is not "*", on a value
  pub expression : (pattern value : String) → Option Bool
  pub to_lower_case : String → String
  pub redact_content : (content patterns : Value) → (replacement : String) → String

pub record Rule : Type 0 where
  pub id : Value
  pub kind : Value
  pub target : Value
  pub tags_any : List Value
  pub outcome : Outcome
  pub reason : Value
  pub violation : Value
  pub patterns : Value
  pub replacement : Value

pub record Policy : Type 0 where
  pub default_outcome : Value
  pub rules : List Rule

-- `asString(input.target) || asString(input.context?.target)`
unfoldable pub read_target : Input → String
read_target i = get_or (or_else (trimmed i.target) (trimmed i.context_target)) ""

-- `Array.isArray(raw) ? raw : [raw]`
abbrev pub as_list : Value → List Value
as_list (array vs) = elements vs
as_list v = v ∷ []

abbrev full : String → Bool
full s = not (s == "")

is_word : String → Value → Bool
is_word word (str s) = s == word
is_word word _ = false

-- `null` is every kind.
pub normalize_rule_kinds : Value → Option (List String)
normalize_rule_kinds raw =
    if not (truthy raw) || is_word "*" raw
    then none
    else (let values = keep full (map (λ v. trim (text_or_blank v)) (as_list raw)) in
        if is_empty values then none else some values)

pub default_decision : Value → Decision
default_decision v = elim (is_word "block" v) [
  | true ↦ record {
    outcome = block;
    reason = some "policy_default_block";
    reasons = "policy_default_block" ∷ [];
    violation = none;
    redacted_content = none;
  }
  | false ↦ record {
    outcome = allow;
    reason = none;
    reasons = [];
    violation = none;
    redacted_content = none;
  }
]

-- A reason is never empty.
pub reason_of : Rule → String
reason_of r =
    get_or (or_else (trimmed r.reason) (trimmed r.violation))
      (String.◌++◌ "rule_" (get_or (trimmed r.id) "matched"))

module _ (sv : Services) where
  matches_pattern : (value pattern : String) → Option Bool
  matches_pattern value raw =
      let p = trim raw in
      if p == "" then some false else if p == "*" then some true else sv.expression p value

  -- `patterns.some`, which ends at the first match and at the first error.
  some_match : String → List String → Option Bool
  some_match value [] = some false
  some_match value (raw ∷ patterns) = elim (matches_pattern value raw) [
    | none ↦ none
    | some true ↦ some true
    | some false ↦ some_match value patterns
  ]

  pub wildcard_match : String → List String → Option Bool
  wildcard_match value patterns = if is_empty patterns then some true else some_match value patterns

  -- A value that is no array has no tags.
  abbrev tags_of : Value → List String
  tags_of (array vs) = keep full (map (λ v. trim (text_or_blank v)) (elements vs))
  tags_of _ = []

  pub tags_match : Value → List Value → Bool
  tags_match given expected =
      if is_empty expected
      then true
      else (let tags = tags_of given in
          if is_empty tags
          then false
          else any
              (λ tag.
                elem (sv.to_lower_case (trim (text_or_blank tag))) (map sv.to_lower_case tags))
              expected)

  abbrev allows_kind : Option (List String) → Kind → Bool
  allows_kind none kind = true
  allows_kind (some kinds) kind = elem (kind_text kind) kinds

  allows_target : Value → String → Option Bool
  allows_target v target =
      if truthy v then wildcard_match target (map text_or_blank (as_list v)) else some true

  -- The three tests that pass a rule over.
  pub applies : Rule → Input → Option Bool
  applies r i =
      if allows_kind (normalize_rule_kinds r.kind) i.kind
      then elim (allows_target r.target (read_target i)) [
        | none ↦ none
        | some false ↦ some false
        | some true ↦ some (tags_match i.tags r.tags_any)
      ]
      else some false

  abbrev redaction : Outcome → Rule → Input → Option String
  redaction redact r i = some (
      sv.redact_content i.content r.patterns
        (if truthy r.replacement then text r.replacement else "[REDACTED]"))
  redaction _ r i = none

  pub decision_of : Rule → Input → Decision
  decision_of r i = record {
    outcome = r.outcome;
    reason = some (reason_of r);
    reasons = reason_of r ∷ [];
    violation = trimmed r.violation;
    redacted_content = redaction r.outcome r i;
  }

  -- The loop over the rules; with no rules it falls through to the default too.
  pub first_match : Value → List Rule → Input → Option Decision
  first_match d [] i = some (default_decision d)
  first_match d (r ∷ rs) i = elim (applies r i) [
    | none ↦ none
    | some true ↦ some (decision_of r i)
    | some false ↦ first_match d rs i
  ]

  pub evaluate_guard_policy_rule : Policy → Input → Option Decision
  evaluate_guard_policy_rule p i = first_match p.default_outcome p.rules i
