-- ===== src/Guard/Legacy/Denied.antt =====
-- src/guard/policy.ts: what the policy object of a gateway never lets through.
use coreax.Prelude.{
  String, Bool, true, false, ◌&&◌, Option, none, some, ◌==◌, get_or, elem, if◌then◌else◌, ◌≡◌, refl,
  ap, ◌∙◌, ◌⊎◌, inl, inr,
}
use mathlib.Core.Option
use coreax.Value.{is_true}
use coreax.Guard.{
  Outcome, block, escalate, Kind, message_outbound, tool_call, mcp_call, api_call, Input, Decision,
}
use coreax.Guard.Rules.{Services, read_target}
use coreax.Policy.{matches_allowlist}
use coreax.Guard.Legacy.{
  PolicyObject, Scan, normalize_policy_reason_array, parse_mcp_target, allowlist_of, tool_violation,
  egress_violation, violation_of, redacted_of, escalated_reasons, redact_or_allow, outcome_of,
  decision_on, evaluate_policy_object,
}

-- The tool that a target names, as it is looked up.
abbrev pub tool_ref_of : String → String
tool_ref_of target = get_or (parse_mcp_target target).tool_name_at_version target

-- The action does not proceed.
abbrev pub Stops : Outcome → Type 0
Stops o = (o ≡ block) ⊎ (o ≡ escalate)

tool_violation-unlisted :
    (p : PolicyObject) (target : String)
    → (tool_ref_of target == "") ≡ false
    → matches_allowlist
        (allowlist_of p.tools_allowlist)
        (tool_ref_of target)
        (parse_mcp_target target).server_name
      ≡ false
    → tool_violation p target ≡ some "tool_not_in_allowlist"
unfolding tool_violation
tool_violation-unlisted p target h k = rw (h, k) refl

module _ (sv : Services) (hostname : String → Option String) (scan_output : Input → Scan) where
  outcome_of-Stops :
      (p : PolicyObject) (v : String) (redacted : Option String)
      → elem v (normalize_policy_reason_array p.deny_on) ≡ true
      → Stops (outcome_of sv hostname scan_output p (some v) redacted)
  unfolding outcome_of
  outcome_of-Stops p v redacted h =
      go (is_true p.approve_high_risk && elem v (escalated_reasons sv hostname scan_output p))
    where
      go :
          (b : Bool)
          → Stops (
              if b
              then escalate
              else (if elem v (normalize_policy_reason_array p.deny_on)
                  then block
                  else redact_or_allow sv hostname scan_output redacted))
      go true = inr refl
      go false = rw h (inl refl)

  violation_of-call :
      (p : PolicyObject) (i : Input)
      → i.kind ≡ tool_call
      → violation_of sv hostname scan_output p i ≡ some (tool_violation p (read_target i))
  unfolding violation_of
  violation_of-call p i h = go i.kind h
    where
      go :
          (k : Kind)
          → k ≡ tool_call
          → elim k [
            | tool_call ↦ some (tool_violation p (read_target i))
            | mcp_call ↦ some (tool_violation p (read_target i))
            | api_call ↦ egress_violation sv hostname scan_output p (read_target i)
            | message_outbound ↦
                some (if (scan_output i).should_block then some "agent_guard_failed" else none)
          ]
            ≡ some (tool_violation p (read_target i))
      go tool_call e = refl
      go mcp_call e = refl
      go api_call e = cc
      go message_outbound e = cc

  -- Where the policy denies calls outside its allowlist, a call of a tool that the allowlist does not
  -- match gets a decision that blocks or escalates it, whatever else the policy and the input hold.
  pub evaluate_policy_object-unlisted :
      (p : PolicyObject) (i : Input)
      → i.kind ≡ tool_call
      → (tool_ref_of (read_target i) == "") ≡ false
      → matches_allowlist
          (allowlist_of p.tools_allowlist)
          (tool_ref_of (read_target i))
          (parse_mcp_target (read_target i)).server_name
        ≡ false
      → elem "tool_not_in_allowlist" (normalize_policy_reason_array p.deny_on) ≡ true
      → (d : Decision) × (evaluate_policy_object sv hostname scan_output p i ≡ some d)
        × Stops d.outcome
  unfolding evaluate_policy_object decision_on
  evaluate_policy_object-unlisted p i call named unlisted denied =
      let violated =
        violation_of-call p i call
        ∙ ap some (tool_violation-unlisted p (read_target i) named unlisted) in
      (
        decision_on sv hostname scan_output p i (some "tool_not_in_allowlist"),
        ap (Option.map (decision_on sv hostname scan_output p i)) violated,
        outcome_of-Stops p "tool_not_in_allowlist" (redacted_of sv hostname scan_output p i) denied,
      )
