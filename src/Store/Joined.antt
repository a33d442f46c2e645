-- ===== src/Store/Joined.antt =====
-- src/governance/store.ts: the rows of a submission joined into one record, and the examples of
-- preference that are exported from them. The order of the keys in an object is put right by a
-- function that is an argument; the prompt of an example is left out.
mod Tests
pub mod Exported
use coreax.Prelude.{
  String, Bool, true, false, Option, none, some, List, [], ◌∷◌, map, ◌==◌, ◌≡◌, refl, ap, ◌∙◌,
  if◌then◌else◌, keep, find, last, get_or, map_get, Option-cases, Bool-cases, inl, inr, or_else,
}
use coreax.Governance.{
  ReviewAction, approve, reject, edit, ask_clarifying_question, answer_clarification,
  accept_improvement, reject_improvement,
}
use coreax.Value.{trimmed}
use coreax.Text
use coreax.Store.{
  FileGovernanceStore, GovernanceTarget, GovernanceSubmission, GovernanceDecision,
  ClarificationRequest, ClarificationAnswer, HumanResolution, ExecutionRecord,
  ExecutionReflectionRecord, OutcomeRecord, ImprovementProposal, PromotionEvaluation,
}
use coreax.Store.Latest.{latest_by, latest_of, first_of, somes, map_get-latest_by}

pub record GovernanceRecord (J : Type 0) : Type 0 where
  pub submission : GovernanceSubmission J
  pub decision : Option (GovernanceDecision J)
  pub clarification_request : Option (ClarificationRequest J)
  pub clarification_answer : Option (ClarificationAnswer J)
  pub human_resolution : Option (HumanResolution J)
  pub execution_record : Option (ExecutionRecord J)
  pub reflection_records : List (ExecutionReflectionRecord J)
  pub outcome_record : Option (OutcomeRecord J)
  pub improvements : List (ImprovementProposal J)
  pub promotion_evaluations : List (PromotionEvaluation J)

-- What a person would have a workflow do.
pub data Completion (J : Type 0) : Type 0 where
  execute : (event_kind : String) → (target payload : J) → Completion J
  rejected : (event_kind : String) → (target : J) → (reason : String) → Completion J
  escalated : (event_kind : String) → (target : J) → Completion J

pub record PreferenceExample (J : Type 0) : Type 0 where
  pub submission_id : String
  pub resolution_id : Option String
  pub preference_kind : ReviewAction
  pub chosen_completion : Completion J
  pub rejected_completion : Completion J
  pub review_key : String
  pub resolution_feedback : Option String

-- `s || undefined`
abbrev pub filled : Option String → Option String
filled none = none
filled (some s) = if s == "" then none else some s

abbrev pub get_by : {A : Type 0} → Option String → List (String × A) → Option A
get_by none m = none
get_by (some k) m = map_get k m

pub is_preference : ReviewAction → Bool
is_preference approve = true
is_preference reject = true
is_preference edit = true
is_preference ask_clarifying_question = false
is_preference answer_clarification = false
is_preference accept_improvement = false
is_preference reject_improvement = false

module _ {J : Type 0} where
  pub get_submission : String → FileGovernanceStore J → Option (GovernanceSubmission J)
  get_submission k s = first_of (λ r. r.submission_id) k s.submissions

  pub get_decision : String → FileGovernanceStore J → Option (GovernanceDecision J)
  get_decision k s = first_of (λ r. r.submission_id) k s.decisions

  pub get_latest_resolution : String → FileGovernanceStore J → Option (HumanResolution J)
  get_latest_resolution k s = latest_of (λ r. r.submission_id) k s.resolutions

  pub get_latest_clarification_request :
      String → FileGovernanceStore J → Option (ClarificationRequest J)
  get_latest_clarification_request k s = latest_of (λ r. r.submission_id) k s.clarifications

  pub get_latest_clarification_answer :
      String → FileGovernanceStore J → Option (ClarificationAnswer J)
  get_latest_clarification_answer k s = latest_of (λ r. r.submission_id) k s.clarification_answers

  pub get_reflections : String → FileGovernanceStore J → List (ExecutionReflectionRecord J)
  get_reflections k s = keep (λ r. r.submission_id == k) s.reflections

  -- The outcomes that name a submission, and that name.
  outcomes_named : List (OutcomeRecord J) → List (String × OutcomeRecord J)
  outcomes_named [] = []
  outcomes_named (o ∷ os) = elim (filled o.submission_id) [
    | none ↦ outcomes_named os
    | some k ↦ (k, o) ∷ outcomes_named os
  ]

  pub latest_outcome_by_submission_id :
      List (OutcomeRecord J) → List (String × (String × OutcomeRecord J))
  latest_outcome_by_submission_id rows = latest_by (λ e. e.0) (outcomes_named rows)

  row_of : Option (String × OutcomeRecord J) → Option (OutcomeRecord J)
  row_of none = none
  row_of (some e) = some e.1

  pub get_joined_records : FileGovernanceStore J → List (GovernanceRecord J)
  get_joined_records s =
      let decisions = latest_by (λ r. r.submission_id) s.decisions in
      let clarifications = latest_by (λ r. r.submission_id) s.clarifications in
      let answers = latest_by (λ r. r.submission_id) s.clarification_answers in
      let resolutions = latest_by (λ r. r.submission_id) s.resolutions in
      let executions = latest_by (λ r. r.submission_id) s.executions in
      let outcomes = latest_outcome_by_submission_id s.outcomes in
      let promotions = latest_by (λ r. r.improvement_id) s.promotions in
      map
        (λ submission.
          let improvements =
            keep (λ r. r.submission_id == submission.submission_id) s.improvements in
          record {
            submission = submission;
            decision = map_get submission.submission_id decisions;
            clarification_request = map_get submission.submission_id clarifications;
            clarification_answer = map_get submission.submission_id answers;
            human_resolution = map_get submission.submission_id resolutions;
            execution_record = map_get submission.submission_id executions;
            reflection_records =
                keep (λ r. r.submission_id == submission.submission_id) s.reflections;
            outcome_record = row_of (map_get submission.submission_id outcomes);
            improvements = improvements;
            promotion_evaluations =
                somes (map (λ r. get_by r.improvement_id promotions) improvements);
          })
        s.submissions

-- Objects with their keys in order, and the digest of the fields that make two submissions alike.
module _ {J : Type 0} (stable_json : J → J) (stable_target : GovernanceTarget J → J)
    (empty_object : J)
    (hash_fields : (tenant workflow kind action_type action_name : String) → J → String) where
  pub get_review_key : GovernanceSubmission J → String
  get_review_key s =
      let hash =
        hash_fields s.tenant_id s.workflow_id s.event_kind s.target.action_type s.target.action_name
          s.payload in
      elim s.review_key [ none ↦ hash | some k ↦ if Text.trim k == "" then hash else k ]

  pub chosen_and_rejected_for_resolution :
      GovernanceSubmission J → HumanResolution J → Completion J × Completion J
  chosen_and_rejected_for_resolution s r =
      let target = stable_target s.target in
      let original = execute s.event_kind target (stable_json s.payload) in
      elim r.action [
        | edit ↦ (
          execute s.event_kind target (stable_json (get_or r.edited_payload empty_object)),
          original,
        )
        | reject ↦
            (rejected s.event_kind target (get_or (filled r.feedback) "human_rejected"), original)
        | _ ↦ (original, escalated s.event_kind target)
      ]

  pub example_of : GovernanceSubmission J → HumanResolution J → PreferenceExample J
  example_of s r =
      let (chosen, unchosen) = chosen_and_rejected_for_resolution s r in
      record {
        submission_id = s.submission_id;
        resolution_id = r.resolution_id;
        preference_kind = r.action;
        chosen_completion = chosen;
        rejected_completion = unchosen;
        review_key = get_review_key s;
        resolution_feedback = filled r.feedback;
      }

  has_preference : Option (HumanResolution J) → Bool
  has_preference none = false
  has_preference (some r) = is_preference r.action

  example_from : GovernanceSubmission J → Option (HumanResolution J) → Option (PreferenceExample J)
  example_from s none = none
  example_from s (some r) = some (example_of s r)

  pub export_preference_examples : FileGovernanceStore J → List (PreferenceExample J)
  export_preference_examples s = somes (
      map (λ r. example_from r.submission r.human_resolution)
        (keep (λ r. has_preference r.human_resolution) (get_joined_records s)))

  is_equivalent : String → Option (GovernanceSubmission J) → Bool
  is_equivalent key none = false
  is_equivalent key (some s) = get_review_key s == key

  pub get_latest_resolution_for_equivalent_submission :
      GovernanceSubmission J → FileGovernanceStore J → Option (HumanResolution J)
  get_latest_resolution_for_equivalent_submission submission s =
      let submissions = latest_by (λ r. r.submission_id) s.submissions in
      let key = get_review_key submission in
      last (keep (λ r. is_equivalent key (map_get r.submission_id submissions)) s.resolutions)
