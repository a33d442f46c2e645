-- ===== src/Guard/Rules/First.antt =====
-- src/guard/policy.ts: the first rule that applies decides, and the default where none does.
use coreax.Prelude.{
  Bool, true, false, Option, none, some, All, sym, List, [], ◌∷◌, ◌++◌, ◌≡◌, ◌≢◌, refl, ◌∙◌, arith,
}
use mathlib.Core.List.{Memᴰ}
use coreax.Value.{Value, str}
use coreax.Guard.{block, Input, Decision}
use coreax.Guard.Rules.{
  Services, Rule, Policy, default_decision, applies, decision_of, is_word, first_match,
  evaluate_guard_policy_rule,
}

abbrev pub policy : Value → List Rule → Policy
policy d rs = record { default_outcome = d; rules = rs }

module _ (sv : Services) (i : Input) where
  first_match-skips :
      (d : Value) (before rs : List Rule)
      → All (λ r. applies sv r i ≡ some false) before
      → first_match sv d (before ++ rs) i ≡ first_match sv d rs i
  unfolding first_match
  first_match-skips d [] rs h = refl
  first_match-skips d (r ∷ before) rs (miss, h) =
      rw (miss, first_match) (first_match-skips d before rs h)

  -- A policy decides by the first of its rules that applies: the rules before one that applies, of
  -- which none does and none throws, and the rules behind it play no part.
  pub evaluate_guard_policy_rule-first :
      (d : Value) (before after : List Rule) (r : Rule)
      → All (λ r. applies sv r i ≡ some false) before
      → applies sv r i ≡ some true
      → evaluate_guard_policy_rule sv (policy d (before ++ (r ∷ after))) i
        ≡ some (decision_of sv r i)
  unfolding evaluate_guard_policy_rule first_match
  evaluate_guard_policy_rule-first d before after r skip hit =
      first_match-skips d before (r ∷ after) skip ∙ rw (hit, first_match) refl

  -- What a decision other than the default rests on.
  abbrev pub RestsOn : List Rule → Decision → Type 0
  RestsOn rs d = (r : Rule) × Memᴰ r rs × (applies sv r i ≡ some true) × (d.outcome ≡ r.outcome)

  first_match-RestsOn :
      (rs : List Rule) (d : Decision)
      → first_match sv (str "block") rs i ≡ some d
      → d.outcome ≢ block
      → RestsOn rs d
  unfolding first_match default_decision is_word decision_of
  first_match-RestsOn [] d e h = absurd (h (sym (ground arith)))
  first_match-RestsOn (r ∷ rs) d e h = go (applies sv r i) refl (first_match-RestsOn rs d)
    where
      go :
          (o : Option Bool)
          → applies sv r i ≡ o
          → (first_match sv (str "block") rs i ≡ some d → d.outcome ≢ block → RestsOn rs d)
          → RestsOn (r ∷ rs) d
      go none miss later =
          let thrown : ◌≡◌ {A = Option Decision} none (some d) = rw (miss, first_match) at e in cc
      go (some true) hit later =
          let decided : ◌≡◌ {A = Option Decision} (some (decision_of sv r i)) (some d) =
            rw (hit, first_match) at e in
          (r, Memᴰ.head refl, hit, ground arith)
      go (some false) miss later =
          let (r', there', hit, same) = later (rw (miss, first_match) at e) h in
          (r', Memᴰ.tail there', hit, same)

  -- Under a policy that blocks by default, every other outcome is that of a rule of the policy which
  -- applies to the input.
  pub evaluate_guard_policy_rule-blocks :
      (rs : List Rule) (d : Decision)
      → evaluate_guard_policy_rule sv (policy (str "block") rs) i ≡ some d
      → d.outcome ≢ block
      → RestsOn rs d
  unfolding evaluate_guard_policy_rule
  evaluate_guard_policy_rule-blocks rs d e h = first_match-RestsOn rs d e h
