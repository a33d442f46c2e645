-- ===== src/Store/Joined/Exported.antt =====
-- src/governance/store.ts: which examples are exported.
use coreax.Prelude.{
  String, Option, none, some, List, [], ◌∷◌, map, ◌≡◌, refl, ap, ◌∙◌, if◌then◌else◌, keep,
  Bool-cases, Option-cases, inl, inr,
}
use coreax.Store.{FileGovernanceStore, GovernanceTarget, GovernanceSubmission, HumanResolution}
use coreax.Store.Latest.{somes, map_get-latest_by}
use coreax.Store.Joined.{
  PreferenceExample, is_preference, get_latest_resolution, get_joined_records, example_of,
  has_preference, example_from, export_preference_examples,
}

cons_eq : {A : Type 0} {x y : A} {xs ys : List A} → x ≡ y → xs ≡ ys → x ∷ xs ≡ y ∷ ys
cons_eq e es = cc

map_through :
    {A B C : Type 0} (f : A → B) (g : B → C) (h : A → C) (xs : List A)
    → ((x : A) → g (f x) ≡ h x)
    → map g (map f xs) ≡ map h xs
map_through f g h [] e = refl
map_through f g h (x ∷ xs) e = cons_eq (e x) (map_through f g h xs e)

module _ {J : Type 0} (stable_json : J → J) (stable_target : GovernanceTarget J → J)
    (empty_object : J)
    (hash_fields : (tenant workflow kind action_type action_name : String) → J → String) where
  -- The example of a submission with this latest resolution.
  abbrev pub example_or_none :
      GovernanceSubmission J → Option (HumanResolution J) → Option (PreferenceExample J)
  example_or_none s none = none
  example_or_none s (some r) =
      if is_preference r.action
      then some (example_of stable_json stable_target empty_object hash_fields s r)
      else none

  -- The examples of submissions by what is looked up for each.
  exported-somes :
      {A : Type 0} (subject : A → GovernanceSubmission J) (human : A → Option (HumanResolution J))
      (xs : List A)
      → somes (
          map
            (λ x.
              example_from stable_json stable_target empty_object hash_fields (subject x) (human x))
            (keep
              (λ x. has_preference stable_json stable_target empty_object hash_fields (human x))
              xs))
        ≡ somes (map (λ x. example_or_none (subject x) (human x)) xs)
  unfolding example_from has_preference
  exported-somes subject human [] = refl
  exported-somes subject human (x ∷ xs) = elim (Option-cases (human x)) [
    | inl nobody ↦ rw nobody (exported-somes subject human xs)
    | inr (r, this) ↦ rw this (elim (Bool-cases (is_preference r.action)) [
      | inl prefers ↦ rw prefers (
          rw this (
            ap
              (λ l. example_of stable_json stable_target empty_object hash_fields (subject x) r ∷ l)
              (exported-somes subject human xs)))
      | inr other ↦ rw other (exported-somes subject human xs)
    ])
  ]

  -- The exported examples are, in the order of the submissions, one of each submission whose latest
  -- resolution approves, rejects or edits it, made from that submission and that resolution.
  pub export_preference_examples-latest :
      (s : FileGovernanceStore J)
      → export_preference_examples stable_json stable_target empty_object hash_fields s
        ≡ somes
            (map (λ r. example_or_none r (get_latest_resolution r.submission_id s)) s.submissions)
  unfolding export_preference_examples get_joined_records get_latest_resolution
  export_preference_examples-latest s =
      exported-somes (λ r. r.submission) (λ r. r.human_resolution) (get_joined_records s)
      ∙ ap somes (
          map_through _ _ _ s.submissions (λ r.
            ap (example_or_none r)
              (map_get-latest_by (λ q. q.submission_id) r.submission_id s.resolutions)))
