-- ===== src/Store/ReviewLoop/Tests.antt =====
-- The list of pending reviews of proposals in a small store, and the theorem at it.
use coreax.Prelude.{String, none, [], ◌∷◌, ◌==◌, ◌≡◌, find}
use coreax.Store.Latest.{latest_of, then_pick}
use coreax.Store.ReviewLoop.{FileReviewLoopStore, escalate, list_pending_reviews}
use coreax.Store.ReviewLoop.Listed.{review_of, list_pending_reviews-escalated}

abbrev one_proposal : FileReviewLoopStore String
one_proposal = record {
  proposals =
      record {
        proposal_id = "p";
        run_id = "r";
        action_name = "send";
        arguments = "{}";
        created_at = "1";
      }
      ∷ [];
  decisions =
      record {
        proposal_id = "p";
        decision = escalate;
        policy_reason = none;
        metadata = "{}";
        created_at = "2";
      }
      ∷ [];
  resolutions = [];
  executions = [];
  outcomes = [];
}

list_pending_reviews-escalated_example :
    find (λ b. b.decision.proposal_id == "p") (list_pending_reviews one_proposal)
    ≡ then_pick
        (review_of one_proposal "p")
        (latest_of (λ r. r.proposal_id) "p" one_proposal.decisions)
list_pending_reviews-escalated_example = list_pending_reviews-escalated "p" one_proposal
