-- ===== src/Store/Replay.antt =====
-- src/governance/store.ts: the export of all rows as events, by the time at which each was made. How
-- two moments compare is an argument.
use coreax.Prelude.{
  String, Bool, not, Option, none, some, List, ◌++◌, map, ◌==◌, ◌≡◌, keep, find, sort_by, count_of,
  count_of-sort_by, get_or, or_else,
}
use coreax.Store.{
  FileGovernanceStore, GovernanceSubmission, GovernanceDecision, ClarificationRequest,
  ClarificationAnswer, HumanResolution, ExecutionRecord, ExecutionReflectionRecord, OutcomeRecord,
  ImprovementProposal, PromotionEvaluation,
}
use coreax.Store.Joined.{filled, get_submission}

-- An event and the row that it repeats.
pub data ReplayPayload (J : Type 0) : Type 0 where
  governance_submission : GovernanceSubmission J → ReplayPayload J
  governance_decision : GovernanceDecision J → ReplayPayload J
  clarification_request : ClarificationRequest J → ReplayPayload J
  clarification_answer : ClarificationAnswer J → ReplayPayload J
  human_resolution : HumanResolution J → ReplayPayload J
  execution_record : ExecutionRecord J → ReplayPayload J
  execution_reflection : ExecutionReflectionRecord J → ReplayPayload J
  outcome_record : OutcomeRecord J → ReplayPayload J
  improvement_proposal : ImprovementProposal J → ReplayPayload J
  promotion_evaluation : PromotionEvaluation J → ReplayPayload J

pub record ReplayEventRow (J : Type 0) : Type 0 where
  pub submission_id : String
  pub run_id : Option String
  pub created_at : String
  pub payload : ReplayPayload J

module _ {J : Type 0} where
  run_of : Option (GovernanceSubmission J) → Option String
  run_of none = none
  run_of (some s) = filled (some s.run_id)

  -- `row.run_id || this.getSubmission(id)?.run_id || null`
  run_or : Option String → String → FileGovernanceStore J → Option String
  run_or run k s = or_else (filled run) (run_of (get_submission k s))

  proposal_of : String → FileGovernanceStore J → Option (ImprovementProposal J)
  proposal_of k s = find (λ p. get_or p.improvement_id "" == k) s.improvements

  submission_of_proposal : Option (ImprovementProposal J) → String
  submission_of_proposal none = ""
  submission_of_proposal (some p) = p.submission_id

  event : String → Option String → String → ReplayPayload J → ReplayEventRow J
  event submission_id run_id created_at payload = record {
    submission_id = submission_id;
    run_id = run_id;
    created_at = created_at;
    payload = payload;
  }

  pub all_rows : FileGovernanceStore J → List (ReplayEventRow J)
  all_rows s =
      map (λ r. event r.submission_id (some r.run_id) r.created_at (governance_submission r))
        s.submissions
      ++ map
          (λ r.
            event r.submission_id (run_or none r.submission_id s) r.created_at
              (governance_decision r))
          s.decisions
      ++ map
          (λ r.
            event r.submission_id (run_or none r.submission_id s) r.created_at
              (clarification_request r))
          s.clarifications
      ++ map
          (λ r.
            event r.submission_id (run_or none r.submission_id s) r.created_at
              (clarification_answer r))
          s.clarification_answers
      ++ map
          (λ r.
            event r.submission_id (run_or none r.submission_id s) r.created_at (human_resolution r))
          s.resolutions
      ++ map
          (λ r.
            event r.submission_id (run_or none r.submission_id s) r.created_at (execution_record r))
          s.executions
      ++ map
          (λ r.
            event r.submission_id (run_or (some r.run_id) r.submission_id s) r.created_at
              (execution_reflection r))
          s.reflections
      ++ map
          (λ r.
            event (get_or r.submission_id "") (run_or r.run_id (get_or r.submission_id "") s)
              r.created_at (outcome_record r))
          s.outcomes
      ++ map
          (λ r.
            event r.submission_id (run_or none r.submission_id s) r.created_at
              (improvement_proposal r))
          s.improvements
      ++ map
          (λ r.
            event (submission_of_proposal (proposal_of r.improvement_id s)) none r.created_at
              (promotion_evaluation r))
          s.promotions

  pub has_submission : ReplayEventRow J → Bool
  has_submission r = not (r.submission_id == "")

  module _ (earlier : String → String → Bool) where
    pub export_replay_rows : FileGovernanceStore J → List (ReplayEventRow J)
    export_replay_rows s =
        sort_by (λ a b. earlier a.created_at b.created_at) (keep has_submission (all_rows s))

    -- The export has each event that names a submission as often as there is a row for it.
    pub export_replay_rows-count :
        (p : ReplayEventRow J → Bool) (s : FileGovernanceStore J)
        → count_of p (export_replay_rows s) ≡ count_of p (keep has_submission (all_rows s))
    unfolding export_replay_rows
    export_replay_rows-count p s = count_of-sort_by _ p (keep has_submission (all_rows s))
