-- ===== src/Entitlements/Check.antt =====
-- src/gateway/entitlements/checker.ts: `checkEntitlements`, which gathers the patterns of the tenant
-- and of every principal of a request, and tests the denying ones first.
pub mod Sources
mod Tests
use coreax.Prelude.{
  ℕ, String, Bool, true, false, not, Option, none, some, List, [], ◌∷◌, ◌++◌, map, ◌==◌, get_or,
  or_else, keep, find, if◌then◌else◌,
}
use coreax.Text.{trim}
use coreax.Entitlements.{
  PrincipalEntitlement, PerTool, TenantEntitlement, Entitlements, AuthzInput, EffectiveLimits,
  AuthzResult,
}
use coreax.Entitlements.Glob.{wildcard_match}

module _ {A : Type 0} where
  abbrev pub entry : String → List (String × A) → Option A
  entry k [] = none
  entry k ((j, a) ∷ es) = if j == k then some a else entry k es

-- The two lists that `checkEntitlements` pushes onto.
pub record Patterns : Type 0 where
  pub allow : List String
  pub deny : List String

abbrev pub full : String → Bool
full s = not (s == "")

pub append_patterns : List String → List String → List String
append_patterns target patterns = target ++ keep full (map trim patterns)

pub normalize_principal : String → Option String
normalize_principal value = let trimmed = trim value in if trimmed == "" then none else some trimmed

plan_of : Entitlements → Option TenantEntitlement → String
plan_of ent none = ent.default_plan
plan_of ent (some t) = t.plan

per_tool_of : Option TenantEntitlement → String → Option PerTool
per_tool_of none tool = none
per_tool_of (some t) tool = entry tool t.per_tool

limits_of : Option ℕ → Option PerTool → EffectiveLimits
limits_of plan_daily none = record { rate = none; daily = plan_daily }
limits_of plan_daily (some p) = record {
  rate = p.rate_per_sec;
  daily = or_else p.calls_per_day plan_daily;
}

-- The test of the denying patterns, then that of the allowing ones.
decide : String → EffectiveLimits → (matched_deny matched_allow : Option String) → AuthzResult
decide plan limits (some p) matched_allow = record {
  allowed = false;
  reason = some "tool_in_denylist";
  plan = plan;
  limits = limits;
  matched_allow = none;
  matched_deny = some p;
}
decide plan limits none (some p) = record {
  allowed = true;
  reason = none;
  plan = plan;
  limits = limits;
  matched_allow = some p;
  matched_deny = none;
}
decide plan limits none none = record {
  allowed = false;
  reason = some "tool_not_in_allowlist";
  plan = plan;
  limits = limits;
  matched_allow = none;
  matched_deny = none;
}

abbrev pub matching : String → List String → Option String
matching tool patterns = find (λ p. wildcard_match p tool) patterns

module _ (to_lower_case : String → String) where
  abbrev lower_key_is : String → String → Bool
  lower_key_is lowered key = elim (normalize_principal key) [
    | none ↦ false
    | some principal ↦ to_lower_case principal == lowered
  ]

  -- The first of the entries whose key is the principal but for its case.
  pub lowered_entry : String → List (String × PrincipalEntitlement) → Option PrincipalEntitlement
  lowered_entry lowered [] = none
  lowered_entry lowered ((key, policy) ∷ es) =
      if lower_key_is lowered key then some policy else lowered_entry lowered es

  pub resolve_principal_entitlement :
      List (String × PrincipalEntitlement) → String → Option PrincipalEntitlement
  resolve_principal_entitlement principals principal =
      or_else (entry principal principals) (lowered_entry (to_lower_case principal) principals)

  append_resolved : Option PrincipalEntitlement → Patterns → Patterns
  append_resolved none acc = acc
  append_resolved (some resolved) acc = record {
    allow = append_patterns acc.allow resolved.allowlist;
    deny = append_patterns acc.deny resolved.denylist;
  }

  pub resolved_principal :
      List (String × PrincipalEntitlement) → Option String → Option PrincipalEntitlement
  resolved_principal principals none = none
  resolved_principal principals (some raw) = elim (normalize_principal raw) [
    | none ↦ none
    | some principal ↦ resolve_principal_entitlement principals principal
  ]

  pub append_principal_patterns :
      List (String × PrincipalEntitlement) → Option String → Patterns → Patterns
  append_principal_patterns principals raw acc =
      append_resolved (resolved_principal principals raw) acc

  append_roles : List (String × PrincipalEntitlement) → List String → Patterns → Patterns
  append_roles principals [] acc = acc
  append_roles principals (role ∷ roles) acc =
      append_roles principals roles (append_principal_patterns principals (some role) acc)

  pub gather : Option TenantEntitlement → AuthzInput → Patterns
  gather none input = record { allow = []; deny = [] }
  gather (some t) input =
      let own : Patterns = record {
        allow = append_patterns [] t.allowlist;
        deny = append_patterns [] t.denylist;
      } in
      let with_user = append_principal_patterns t.users input.user own in
      let with_id = append_principal_patterns t.user_ids input.user_id with_user in
      let with_agent = append_principal_patterns t.agents input.agent with_id in
      append_roles t.roles input.roles
        (append_principal_patterns t.agent_nodes input.agent_node with_agent)

  pub check_entitlements : Entitlements → AuthzInput → AuthzResult
  check_entitlements ent input =
      let t = entry input.tenant ent.tenants in
      let plan = plan_of ent t in
      let patterns = gather t input in
      decide plan (limits_of (entry plan ent.plans) (per_tool_of t input.tool_ref))
        (matching input.tool_ref patterns.deny) (matching input.tool_ref patterns.allow)
