-- ===== src/Store/ReviewLoop.antt =====
-- src/review-loop/store.ts: the store of proposals, the older of the two, whose decisions only allow,
-- deny or escalate.
mod Tests
pub mod Listed
use coreax.Prelude.{
  String, Bool, true, false, not, Option, none, some, List, [], ◌∷◌, ◌++◌, ◌==◌, ◌≡◌, refl, ap, ◌∙◌,
  sym, keep, find, last, get_or, map_get, map_has, values, is_some, if◌then◌else◌, Option-cases,
  inl, inr,
}
use coreax.Store.{id_or}
use coreax.Store.Latest.{
  latest_by, latest_of, first_of, selected, pick, then_pick, map_get-latest_by,
}

pub data Sec0Verdict : Type 0 where
  allow deny escalate : Sec0Verdict

pub data ResolutionVerdict : Type 0 where
  approve reject edit : ResolutionVerdict

pub record ActionProposal (J : Type 0) : Type 0 where
  pub proposal_id : String
  pub run_id : String
  pub action_name : String
  pub arguments : J
  pub created_at : String

pub record Sec0Decision (J : Type 0) : Type 0 where
  pub proposal_id : String
  pub decision : Sec0Verdict
  pub policy_reason : Option String
  pub metadata : J
  pub created_at : String

-- `review_id` is that of the metadata.
pub record HumanResolution (J : Type 0) : Type 0 where
  pub resolution_id : Option String
  pub proposal_id : String
  pub decision : ResolutionVerdict
  pub edited_arguments : Option J
  pub review_id : Option String
  pub created_at : String

pub record ExecutionResult (J : Type 0) : Type 0 where
  pub proposal_id : String
  pub executed : Bool
  pub status : String
  pub created_at : String

pub record OutcomeRecord (J : Type 0) : Type 0 where
  pub outcome_id : Option String
  pub proposal_id : Option String
  pub created_at : String

pub record PendingReview (J : Type 0) : Type 0 where
  pub proposal : ActionProposal J
  pub decision : Sec0Decision J
  pub latest_resolution : Option (HumanResolution J)

pub record FileReviewLoopStore (J : Type 0) : Type 0 where
  pub proposals : List (ActionProposal J)
  pub decisions : List (Sec0Decision J)
  pub resolutions : List (HumanResolution J)
  pub executions : List (ExecutionResult J)
  pub outcomes : List (OutcomeRecord J)

pub is_escalated : Sec0Verdict → Bool
is_escalated allow = false
is_escalated deny = false
is_escalated escalate = true

module _ {J : Type 0} where
  pub append_proposal :
      ActionProposal J → FileReviewLoopStore J → ActionProposal J × FileReviewLoopStore J
  append_proposal row s = (row, record s { proposals = s.proposals ++ (row ∷ []) })

  pub append_decision :
      Sec0Decision J → FileReviewLoopStore J → Sec0Decision J × FileReviewLoopStore J
  append_decision row s = (row, record s { decisions = s.decisions ++ (row ∷ []) })

  pub append_resolution :
      HumanResolution J
      → (uuid : String) → FileReviewLoopStore J
      → HumanResolution J × FileReviewLoopStore J
  append_resolution r uuid s =
      let row = record r { resolution_id = id_or r.resolution_id uuid } in
      (row, record s { resolutions = s.resolutions ++ (row ∷ []) })

  pub append_execution :
      ExecutionResult J → FileReviewLoopStore J → ExecutionResult J × FileReviewLoopStore J
  append_execution row s = (row, record s { executions = s.executions ++ (row ∷ []) })

  pub append_outcome :
      OutcomeRecord J
      → (uuid : String) → FileReviewLoopStore J
      → OutcomeRecord J × FileReviewLoopStore J
  append_outcome o uuid s =
      let row = record o { outcome_id = id_or o.outcome_id uuid } in
      (row, record s { outcomes = s.outcomes ++ (row ∷ []) })

  pub get_proposal : String → FileReviewLoopStore J → Option (ActionProposal J)
  get_proposal k s = first_of (λ r. r.proposal_id) k s.proposals

  pub get_decision : String → FileReviewLoopStore J → Option (Sec0Decision J)
  get_decision k s = first_of (λ r. r.proposal_id) k s.decisions

  pub get_latest_resolution : String → FileReviewLoopStore J → Option (HumanResolution J)
  get_latest_resolution k s = latest_of (λ r. r.proposal_id) k s.resolutions

  pub get_latest_resolution_by_review_id :
      String → FileReviewLoopStore J → Option (HumanResolution J)
  get_latest_resolution_by_review_id review_id s =
      last (keep (λ r. get_or r.review_id "" == review_id) s.resolutions)

  pub with_proposal : Sec0Decision J → Option (ActionProposal J) → Option (PendingReview J)
  with_proposal d none = none
  with_proposal d (some p) = some (record { proposal = p; decision = d; latest_resolution = none })

  pub list_pending_reviews : FileReviewLoopStore J → List (PendingReview J)
  list_pending_reviews s =
      let proposals = latest_by (λ r. r.proposal_id) s.proposals in
      let decisions = latest_by (λ r. r.proposal_id) s.decisions in
      let resolutions = latest_by (λ r. r.proposal_id) s.resolutions in
      selected (λ d. is_escalated d.decision) (λ d. not (map_has d.proposal_id resolutions))
        (λ d. with_proposal d (map_get d.proposal_id proposals)) (values decisions)
