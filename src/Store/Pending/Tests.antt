-- ===== src/Store/Pending/Tests.antt =====
-- The list of pending reviews in a small store, and the theorems at it.
use coreax.Prelude.{String, false, none, some, List, [], ◌∷◌, ◌==◌, ◌≡◌, refl, find}
use coreax.Governance.{Verdict, allow, escalate, clarify, ReviewAction, ask_clarifying_question}
use coreax.Store.{
  FileGovernanceStore, GovernanceSubmission, GovernanceDecision, ClarificationRequest,
  HumanResolution, ClarificationStatus, pending, answered, append_resolution,
}
use coreax.Store.Latest.{latest_by, selected, latest_of}
use coreax.Store.Pending.{
  PendingGovernanceReview, needs_review, still_open, question_open, with_submission,
  list_pending_reviews,
}
use coreax.Store.Pending.Listed.{
  pending_of, latest_decision, list_pending_reviews-find, append_resolution-settles,
}

abbrev pub submission : String → GovernanceSubmission String
submission k = record {
  submission_id = k;
  tenant_id = "acme";
  workflow_id = "pay";
  run_id = "r";
  event_kind = "tool_call";
  target = record { action_type = "payment"; action_name = "send"; details = "{}" };
  payload = "{}";
  review_key = none;
  metadata = "{}";
  created_at = "1";
}

abbrev pub decided : String → Verdict → GovernanceDecision String
decided k v = record {
  decision_id = some "d";
  submission_id = k;
  decision = v;
  policy_reason = none;
  metadata = "{}";
  created_at = "2";
}

abbrev asked : String → ClarificationStatus → ClarificationRequest String
asked k status = record {
  clarification_id = some "c";
  submission_id = k;
  status = status;
  questions = [];
  metadata = "{}";
  created_at = "3";
}

abbrev pub resolved : String → ReviewAction → HumanResolution String
resolved k a = record {
  resolution_id = none;
  submission_id = k;
  action = a;
  reviewer = "eve";
  feedback = none;
  edited_payload = none;
  metadata = "{}";
  created_at = "4";
}

-- One submission waits for a resolution, one for an answer; a third was answered, and the fourth has
-- no submission.
abbrev pub waiting : FileGovernanceStore String
waiting = record {
  submissions = submission "a" ∷ submission "b" ∷ submission "c" ∷ [];
  decisions =
      decided "a" allow
      ∷ decided "b" clarify
      ∷ decided "a" escalate
      ∷ decided "c" clarify
      ∷ decided "d" escalate
      ∷ [];
  clarifications = asked "b" pending ∷ asked "c" answered ∷ [];
  clarification_answers = [];
  resolutions = [];
  executions = [];
  reflections = [];
  outcomes = [];
  improvements = [];
  promotions = [];
}

abbrev ids : List (PendingGovernanceReview String) → List String
ids [] = []
ids (r ∷ rs) = r.submission.submission_id ∷ ids rs

two_wait : ids (list_pending_reviews waiting) ≡ "a" ∷ "b" ∷ []
unfolding list_pending_reviews needs_review still_open question_open with_submission latest_by
    selected
two_wait = refl

list_pending_reviews-find_example :
    find (λ b. b.decision.submission_id == "a") (list_pending_reviews waiting)
    ≡ pending_of "a" waiting
list_pending_reviews-find_example = list_pending_reviews-find "a" waiting

latest : latest_decision "a" waiting ≡ some (decided "a" escalate)
unfolding latest_of
latest = refl

-- Even a question in the place of a resolution takes the review off the list.
append_resolution-settles_example :
    (find
        (λ b. b.decision.submission_id == "a")
        (list_pending_reviews
          (append_resolution (resolved "a" ask_clarifying_question) "u" waiting).1)
      ≡ none)
    × ((k : String)
        → ("a" == k) ≡ false
        → find
            (λ b. b.decision.submission_id == k)
            (list_pending_reviews
              (append_resolution (resolved "a" ask_clarifying_question) "u" waiting).1)
          ≡ find (λ b. b.decision.submission_id == k) (list_pending_reviews waiting))
append_resolution-settles_example =
    append_resolution-settles waiting (resolved "a" ask_clarifying_question) "u"
      (decided "a" escalate) latest refl
