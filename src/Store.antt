-- ===== src/Store.antt =====
-- src/governance/store.ts: the rows that a store of governed actions keeps, each kind in a file of its
-- own that only grows. A row is read as it was written. The objects that the store does not look into
-- are of any type.
pub mod Latest
pub mod Pending
pub mod Joined
pub mod Replay
pub mod ReviewLoop
use coreax.Prelude.{String, Bool, Option, none, some, List, [], ◌∷◌, ◌++◌, ◌==◌, if◌then◌else◌}
use coreax.Governance.{Verdict, ReviewAction}

pub record GovernanceTarget (J : Type 0) : Type 0 where
  pub action_type : String
  pub action_name : String
  pub details : J

-- `review_key` is that of the metadata, where it is a text.
pub record GovernanceSubmission (J : Type 0) : Type 0 where
  pub submission_id : String
  pub tenant_id : String
  pub workflow_id : String
  pub run_id : String
  pub event_kind : String
  pub target : GovernanceTarget J
  pub payload : J
  pub review_key : Option String
  pub metadata : J
  pub created_at : String

pub record GovernanceDecision (J : Type 0) : Type 0 where
  pub decision_id : Option String
  pub submission_id : String
  pub decision : Verdict
  pub policy_reason : Option String
  pub metadata : J
  pub created_at : String

pub data ClarificationStatus : Type 0 where
  pending answered closed : ClarificationStatus

pub record ClarificationRequest (J : Type 0) : Type 0 where
  pub clarification_id : Option String
  pub submission_id : String
  pub status : ClarificationStatus
  pub questions : List String
  pub metadata : J
  pub created_at : String

pub record ClarificationAnswer (J : Type 0) : Type 0 where
  pub answer_id : Option String
  pub clarification_id : String
  pub submission_id : String
  pub answers : J
  pub created_at : String

pub record HumanResolution (J : Type 0) : Type 0 where
  pub resolution_id : Option String
  pub submission_id : String
  pub action : ReviewAction
  pub reviewer : String
  pub feedback : Option String
  pub edited_payload : Option J
  pub metadata : J
  pub created_at : String

pub record ExecutionRecord (J : Type 0) : Type 0 where
  pub submission_id : String
  pub executed : Bool
  pub status : String
  pub metadata : J
  pub created_at : String

pub record ExecutionReflectionRecord (J : Type 0) : Type 0 where
  pub reflection_id : Option String
  pub event_kind : String
  pub submission_id : String
  pub run_id : String
  pub status : String
  pub metadata : J
  pub created_at : String

pub record OutcomeRecord (J : Type 0) : Type 0 where
  pub outcome_id : Option String
  pub submission_id : Option String
  pub run_id : Option String
  pub metadata : J
  pub created_at : String

pub record ImprovementProposal (J : Type 0) : Type 0 where
  pub improvement_id : Option String
  pub submission_id : String
  pub proposed_change : J
  pub created_at : String

pub record PromotionEvaluation (J : Type 0) : Type 0 where
  pub evaluation_id : Option String
  pub improvement_id : String
  pub verdict : String
  pub metadata : J
  pub created_at : String

-- The files, the first row in front.
pub record FileGovernanceStore (J : Type 0) : Type 0 where
  pub submissions : List (GovernanceSubmission J)
  pub decisions : List (GovernanceDecision J)
  pub clarifications : List (ClarificationRequest J)
  pub clarification_answers : List (ClarificationAnswer J)
  pub resolutions : List (HumanResolution J)
  pub executions : List (ExecutionRecord J)
  pub reflections : List (ExecutionReflectionRecord J)
  pub outcomes : List (OutcomeRecord J)
  pub improvements : List (ImprovementProposal J)
  pub promotions : List (PromotionEvaluation J)

-- `id || randomUUID()`
pub id_or : Option String → String → Option String
id_or none uuid = some uuid
id_or (some s) uuid = if s == "" then some uuid else some s

-- An operation gets the identifier that `randomUUID` makes for it, and gives back the row as it is
-- kept.
module _ {J : Type 0} where
  pub append_submission :
      GovernanceSubmission J
      → FileGovernanceStore J
      → GovernanceSubmission J × FileGovernanceStore J
  append_submission row s = (row, record s { submissions = s.submissions ++ (row ∷ []) })

  pub append_decision :
      GovernanceDecision J
      → (uuid : String) → FileGovernanceStore J
      → GovernanceDecision J × FileGovernanceStore J
  append_decision d uuid s =
      let row = record d { decision_id = id_or d.decision_id uuid } in
      (row, record s { decisions = s.decisions ++ (row ∷ []) })

  pub append_clarification_request :
      ClarificationRequest J
      → (uuid : String) → FileGovernanceStore J
      → ClarificationRequest J × FileGovernanceStore J
  append_clarification_request c uuid s =
      let row = record c { clarification_id = id_or c.clarification_id uuid } in
      (row, record s { clarifications = s.clarifications ++ (row ∷ []) })

  pub append_clarification_answer :
      ClarificationAnswer J
      → (uuid : String) → FileGovernanceStore J
      → ClarificationAnswer J × FileGovernanceStore J
  append_clarification_answer a uuid s =
      let row = record a { answer_id = id_or a.answer_id uuid } in
      (row, record s { clarification_answers = s.clarification_answers ++ (row ∷ []) })

  pub append_resolution :
      HumanResolution J
      → (uuid : String) → FileGovernanceStore J
      → HumanResolution J × FileGovernanceStore J
  append_resolution r uuid s =
      let row = record r { resolution_id = id_or r.resolution_id uuid } in
      (row, record s { resolutions = s.resolutions ++ (row ∷ []) })

  pub append_execution :
      ExecutionRecord J → FileGovernanceStore J → ExecutionRecord J × FileGovernanceStore J
  append_execution row s = (row, record s { executions = s.executions ++ (row ∷ []) })

  pub append_reflection :
      ExecutionReflectionRecord J
      → (uuid : String) → FileGovernanceStore J
      → ExecutionReflectionRecord J × FileGovernanceStore J
  append_reflection r uuid s =
      let row = record r {
        event_kind = "execution_reflection";
        reflection_id = id_or r.reflection_id uuid;
      } in
      (row, record s { reflections = s.reflections ++ (row ∷ []) })

  pub append_outcome :
      OutcomeRecord J
      → (uuid : String) → FileGovernanceStore J
      → OutcomeRecord J × FileGovernanceStore J
  append_outcome o uuid s =
      let row = record o { outcome_id = id_or o.outcome_id uuid } in
      (row, record s { outcomes = s.outcomes ++ (row ∷ []) })

  pub append_improvement :
      ImprovementProposal J
      → (uuid : String) → FileGovernanceStore J
      → ImprovementProposal J × FileGovernanceStore J
  append_improvement p uuid s =
      let row = record p { improvement_id = id_or p.improvement_id uuid } in
      (row, record s { improvements = s.improvements ++ (row ∷ []) })

  pub append_promotion_evaluation :
      PromotionEvaluation J
      → (uuid : String) → FileGovernanceStore J
      → PromotionEvaluation J × FileGovernanceStore J
  append_promotion_evaluation e uuid s =
      let row = record e { evaluation_id = id_or e.evaluation_id uuid } in
      (row, record s { promotions = s.promotions ++ (row ∷ []) })
