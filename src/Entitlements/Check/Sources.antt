-- ===== src/Entitlements/Check/Sources.antt =====
-- src/gateway/entitlements/checker.ts: the decision in terms of the lists that apply to a request.
use coreax.Prelude.{
  is_some, String, Bool, true, false, not, ◌&&◌, ◌||◌, Option, none, some, List, [], ◌∷◌, ◌++◌, ◌≡◌,
  refl, ap, sym, ◌∙◌, any, find, Bool-cases, inl, inr,
}
use coreax.Text.{trim}
use coreax.Entitlements.{
  EffectiveLimits, PrincipalEntitlement, TenantEntitlement, Entitlements, AuthzInput,
}
use coreax.Entitlements.Glob.{wildcard_match}
use coreax.Entitlements.Check.{
  Patterns, entry, full, append_patterns, append_resolved, resolved_principal,
  append_principal_patterns, append_roles, gather, plan_of, per_tool_of, limits_of, decide,
  matching, check_entitlements,
}

or_assoc : (a b c : Bool) → ((a || b) || c) ≡ (a || (b || c))
or_assoc true b c = refl
or_assoc false b c = refl

or_false : (a : Bool) → (a || false) ≡ a
or_false true = refl
or_false false = refl

any-append :
    {A : Type 0} (p : A → Bool) (xs ys : List A) → any p (xs ++ ys) ≡ (any p xs || any p ys)
any-append p [] ys = refl
any-append p (x ∷ xs) ys = rw (any-append p xs ys) (sym (or_assoc (p x) (any p xs) (any p ys)))

or_any-append :
    {A : Type 0} (p : A → Bool) (xs ys : List A) (x y z : Bool)
    → y ≡ (x || any p xs)
    → z ≡ (y || any p ys)
    → z ≡ (x || any p (xs ++ ys))
or_any-append p xs ys x y z f g =
    g
    ∙ ap (λ v. v || any p ys) f
    ∙ or_assoc x (any p xs) (any p ys)
    ∙ ap (λ v. x || v) (sym (any-append p xs ys))

is_some-find : {A : Type 0} (p : A → Bool) (xs : List A) → is_some (find p xs) ≡ any p xs
is_some-find p [] = refl
is_some-find p (x ∷ xs) = elim (Bool-cases (p x)) [
  | inl hit ↦ rw hit refl
  | inr miss ↦ rw miss (is_some-find p xs)
]

decide-is_some :
    (plan : String) (limits : EffectiveLimits) (deny allow : Option String)
    → (decide plan limits deny allow).allowed ≡ (is_some allow && not (is_some deny))
unfolding decide
decide-is_some plan limits (some d) none = refl
decide-is_some plan limits (some d) (some a) = refl
decide-is_some plan limits none (some a) = refl
decide-is_some plan limits none none = refl

-- A raw list has an entry that, trimmed, is not empty and takes the tool.
abbrev pub names : String → List String → Bool
names tool patterns = any (λ raw. full (trim raw) && wildcard_match (trim raw) tool) patterns

abbrev pub one : Option PrincipalEntitlement → List PrincipalEntitlement
one none = []
one (some e) = e ∷ []

module _ (to_lower_case : String → String) where
  abbrev pub role_sources : TenantEntitlement → List String → List PrincipalEntitlement
  role_sources t [] = []
  role_sources t (r ∷ rs) =
      one (resolved_principal to_lower_case t.roles (some r)) ++ role_sources t rs

  -- The entitlements that apply to a request: those of its tenant, and those of each of its
  -- principals that the tenant knows.
  abbrev pub sources : Option TenantEntitlement → AuthzInput → List PrincipalEntitlement
  sources none input = []
  sources (some t) input =
      record { allowlist = t.allowlist; denylist = t.denylist }
      ∷ (one (resolved_principal to_lower_case t.users input.user)
          ++ (one (resolved_principal to_lower_case t.user_ids input.user_id)
              ++ (one (resolved_principal to_lower_case t.agents input.agent)
                  ++ (one (resolved_principal to_lower_case t.agent_nodes input.agent_node)
                      ++ role_sources t input.roles))))

  module _ (tool : String) where
    abbrev takes : List String → Bool
    takes patterns = any (λ p. wildcard_match p tool) patterns

    -- What a gathered pair of lists says of the tool.
    abbrev Verdict : Patterns → List PrincipalEntitlement → Patterns → Type 0
    Verdict before srcs after =
        (takes after.allow ≡ (takes before.allow || any (λ s. names tool s.allowlist) srcs))
        × (takes after.deny ≡ (takes before.deny || any (λ s. names tool s.denylist) srcs))

    takes-append_patterns :
        (target patterns : List String)
        → takes (append_patterns target patterns) ≡ (takes target || names tool patterns)
    unfolding append_patterns
    takes-append_patterns [] [] = refl
    takes-append_patterns [] (p ∷ ps) = elim (Bool-cases (full (trim p))) [
      | inl keeps ↦ rw (keeps, takes-append_patterns [] ps) refl
      | inr drops ↦ rw (drops, takes-append_patterns [] ps) refl
    ]
    takes-append_patterns (t ∷ ts) ps =
        rw (takes-append_patterns ts ps)
          (sym (or_assoc (wildcard_match t tool) (takes ts) (names tool ps)))

    Verdict-then :
        (a b c : Patterns) (xs ys : List PrincipalEntitlement)
        → Verdict a xs b
        → Verdict b ys c
        → Verdict a (xs ++ ys) c
    Verdict-then a b c xs ys (h, k) (h', k') = (
      or_any-append (λ s. names tool s.allowlist) xs ys _ _ _ h h',
      or_any-append (λ s. names tool s.denylist) xs ys _ _ _ k k',
    )

    append_resolved-Verdict :
        (r : Option PrincipalEntitlement) (acc : Patterns)
        → Verdict acc (one r) (append_resolved to_lower_case r acc)
    unfolding append_resolved
    append_resolved-Verdict none acc = (sym (or_false _), sym (or_false _))
    append_resolved-Verdict (some e) acc = (
      takes-append_patterns acc.allow e.allowlist
          ∙ ap (λ v. takes acc.allow || v) (sym (or_false _)),
      takes-append_patterns acc.deny e.denylist ∙ ap (λ v. takes acc.deny || v) (sym (or_false _)),
    )

    -- The entitlements of a principal come before what is gathered next.
    found-Verdict :
        (ps : List (String × PrincipalEntitlement)) (raw : Option String)
        (ys : List PrincipalEntitlement) (next : Patterns → Patterns)
        → ((acc : Patterns) → Verdict acc ys (next acc))
        → (acc : Patterns)
        → Verdict acc
            (one (resolved_principal to_lower_case ps raw) ++ ys)
            (next (append_principal_patterns to_lower_case ps raw acc))
    unfolding append_principal_patterns
    found-Verdict ps raw ys next h acc =
        let found = resolved_principal to_lower_case ps raw in
        Verdict-then acc (append_resolved to_lower_case found acc) _ (one found) ys
          (append_resolved-Verdict found acc) (h _)

    append_roles-Verdict :
        (t : TenantEntitlement) (roles : List String) (acc : Patterns)
        → Verdict acc (role_sources t roles) (append_roles to_lower_case t.roles roles acc)
    unfolding append_roles
    append_roles-Verdict t [] acc = (sym (or_false _), sym (or_false _))
    append_roles-Verdict t (r ∷ rs) acc =
        found-Verdict t.roles (some r) (role_sources t rs) _ (append_roles-Verdict t rs) acc

    gather-Verdict :
        (t : Option TenantEntitlement) (input : AuthzInput)
        → Verdict
            (record { allow = []; deny = [] })
            (sources t input)
            (gather to_lower_case t input)
    unfolding gather append_resolved
    gather-Verdict none input = (refl, refl)
    gather-Verdict (some t) input =
        let none_yet : Patterns = record { allow = []; deny = [] } in
        let own : PrincipalEntitlement = record {
          allowlist = t.allowlist;
          denylist = t.denylist;
        } in
        let roles = role_sources t input.roles in
        let nodes =
          one (resolved_principal to_lower_case t.agent_nodes input.agent_node) ++ roles in
        let agents = one (resolved_principal to_lower_case t.agents input.agent) ++ nodes in
        let ids = one (resolved_principal to_lower_case t.user_ids input.user_id) ++ agents in
        let users = one (resolved_principal to_lower_case t.users input.user) ++ ids in
        Verdict-then none_yet (append_resolved to_lower_case (some own) none_yet) _ (one (some own))
          users (append_resolved-Verdict (some own) none_yet)
          (found-Verdict t.users input.user ids _
            (found-Verdict t.user_ids input.user_id agents _ (
              found-Verdict t.agents input.agent nodes _ (
                found-Verdict t.agent_nodes input.agent_node roles _
                  (append_roles-Verdict t input.roles))))
            _)

    decide-allowed :
        (plan : String) (limits : EffectiveLimits) (deny allow : List String)
        → (decide plan limits (matching tool deny) (matching tool allow)).allowed
          ≡ (takes allow && not (takes deny))
    unfolding decide
    decide-allowed plan limits deny allow =
        decide-is_some plan limits (matching tool deny) (matching tool allow)
        ∙ rw (is_some-find _ deny, is_some-find _ allow) refl

  -- A request is allowed just when a list of allowed tools that applies to it, its tenant's or that of
  -- one of its principals, names the tool, and no such list of denied tools does: a denial always
  -- wins, and neither the order of the lists nor that of the roles matters.
  pub check_entitlements-allowed :
      (ent : Entitlements) (input : AuthzInput)
      → (check_entitlements to_lower_case ent input).allowed ≡ (
          any
            (λ s. names input.tool_ref s.allowlist)
            (sources (entry input.tenant ent.tenants) input)
          && not (
              any
                (λ s. names input.tool_ref s.denylist)
                (sources (entry input.tenant ent.tenants) input)))
  unfolding check_entitlements
  check_entitlements-allowed ent input =
      let t = entry input.tenant ent.tenants in
      let patterns = gather to_lower_case (entry input.tenant ent.tenants) input in
      let (allows, denies) = gather-Verdict input.tool_ref (entry input.tenant ent.tenants) input in
      decide-allowed input.tool_ref (plan_of ent t)
        (limits_of (entry (plan_of ent t) ent.plans) (per_tool_of t input.tool_ref)) patterns.deny
        patterns.allow
      ∙ rw (allows, denies) refl
