-- ===== src/Entitlements.antt =====
-- src/gateway/entitlements/: whether the entitlements of a tenant let a request call a tool, and its
-- limits. A `Record` of the source is a list of its entries; the lower case of a text is an argument.
pub mod Glob
pub mod Check
use coreax.Prelude.{ℕ, Bool, String, Option, List}

pub record PrincipalEntitlement : Type 0 where
  pub allowlist : List String
  pub denylist : List String

pub record PerTool : Type 0 where
  pub rate_per_sec : Option ℕ
  pub calls_per_day : Option ℕ

-- A list or a record that is missing is an empty one.
pub record TenantEntitlement : Type 0 where
  pub plan : String
  pub allowlist : List String
  pub denylist : List String
  pub per_tool : List (String × PerTool)
  pub users : List (String × PrincipalEntitlement)
  pub user_ids : List (String × PrincipalEntitlement)
  pub roles : List (String × PrincipalEntitlement)
  pub agents : List (String × PrincipalEntitlement)
  pub agent_nodes : List (String × PrincipalEntitlement)

-- `plans` gives the calls a day of a plan.
pub record Entitlements : Type 0 where
  pub default_plan : String
  pub plans : List (String × ℕ)
  pub tenants : List (String × TenantEntitlement)

pub record AuthzInput : Type 0 where
  pub tenant : String
  pub user : Option String
  pub user_id : Option String
  pub roles : List String
  pub agent : Option String
  pub agent_node : Option String
  pub tool_ref : String

pub record EffectiveLimits : Type 0 where
  pub rate : Option ℕ
  pub daily : Option ℕ

pub record AuthzResult : Type 0 where
  pub allowed : Bool
  pub reason : Option String
  pub plan : String
  pub limits : EffectiveLimits
  pub matched_allow : Option String
  pub matched_deny : Option String
