-- ===== src/Entitlements/Check/Tests.antt =====
-- Checks of src/gateway/entitlements/checker.ts on given entitlements.
use coreax.Prelude.{String, true, false, not, ◌&&◌, none, some, List, [], ◌∷◌, ◌≡◌, refl, any}
use coreax.Text.{trim}
use coreax.Entitlements.{Entitlements, AuthzInput}
use coreax.Entitlements.Glob.{wildcard_match}
use coreax.Entitlements.Check.{
  entry, append_patterns, normalize_principal, lowered_entry, resolve_principal_entitlement,
  append_resolved, resolved_principal, append_principal_patterns, append_roles, gather, plan_of,
  per_tool_of, limits_of, decide, check_entitlements,
}
use coreax.Entitlements.Check.Sources.{names, sources, check_entitlements-allowed}

checks_compute : Unit {0}
unfolding check_entitlements gather append_roles append_principal_patterns resolved_principal
    append_resolved resolve_principal_entitlement lowered_entry normalize_principal append_patterns
    plan_of per_tool_of limits_of decide trim wildcard_match
checks_compute = tt

abbrev ent : Entitlements
ent = record {
  default_plan = "free";
  plans = ("free", 10) ∷ ("team", 100) ∷ [];
  tenants =
      (
        "acme",
        record {
          plan = "team";
          allowlist = "read@1" ∷ [];
          denylist = [];
          per_tool = ("read@1", record { rate_per_sec = some 3; calls_per_day = none }) ∷ [];
          users = [];
          user_ids = [];
          roles = (" guest ", record { allowlist = []; denylist = " read@1 " ∷ [] }) ∷ [];
          agents = [];
          agent_nodes = [];
        },
      )
      ∷ [];
}

abbrev request : List String → AuthzInput
request roles = record {
  tenant = "acme";
  user = none;
  user_id = none;
  roles = roles;
  agent = some "bot";
  agent_node = none;
  tool_ref = "read@1";
}

checks :
    ((check_entitlements (λ s. s) ent (request [])).allowed ≡ true)
    × ((check_entitlements (λ s. s) ent (request [])).limits.daily ≡ some 100)
    × ((check_entitlements (λ s. s) ent (request ("guest" ∷ []))).allowed ≡ false)
    × ((check_entitlements (λ s. s) ent (request ("guest" ∷ []))).matched_deny ≡ some "read@1")
unfolding checks_compute
checks = (refl, refl, refl, refl)

check_entitlements-allowed_example :
    (check_entitlements (λ s. s) ent (request ("guest" ∷ []))).allowed ≡ (
      any
        (λ s. names "read@1" s.allowlist)
        (sources (λ s. s) (entry "acme" ent.tenants) (request ("guest" ∷ [])))
      && not (
          any
            (λ s. names "read@1" s.denylist)
            (sources (λ s. s) (entry "acme" ent.tenants) (request ("guest" ∷ [])))))
check_entitlements-allowed_example =
    check_entitlements-allowed (λ s. s) ent (request ("guest" ∷ []))
