-- ===== src/Store/Pending.antt =====
-- src/governance/store.ts: the reviews that wait for a person.
mod Tests
pub mod Listed
use coreax.Prelude.{
  String, Bool, true, false, not, ◌||◌, ◌&&◌, Option, none, some, List, [], ◌∷◌, ◌++◌, ◌==◌, ◌≡◌,
  refl, sym, ap, ◌∙◌, if◌then◌else◌, is_some, find, map_get, map_has, values, Option-cases,
  Bool-cases, inl, inr,
}
use coreax.Governance.{Verdict, allow, deny, escalate, clarify}
use coreax.Store.{
  FileGovernanceStore, GovernanceSubmission, GovernanceDecision, ClarificationRequest,
  ClarificationAnswer, HumanResolution, ClarificationStatus, pending, answered, closed,
  append_resolution, id_or,
}
use coreax.Store.Latest.{latest_by, selected}

pub record PendingGovernanceReview (J : Type 0) : Type 0 where
  pub submission : GovernanceSubmission J
  pub decision : GovernanceDecision J
  pub clarification_request : Option (ClarificationRequest J)
  pub latest_resolution : Option (HumanResolution J)

pub needs_review : Verdict → Bool
needs_review allow = false
needs_review deny = false
needs_review escalate = true
needs_review clarify = true

abbrev pub is_answered : ClarificationStatus → Bool
is_answered answered = true
is_answered pending = false
is_answered closed = false

abbrev pub is_verdict : Verdict → Verdict → Bool
is_verdict allow allow = true
is_verdict deny deny = true
is_verdict escalate escalate = true
is_verdict clarify clarify = true
is_verdict v w = false

-- Whether a question waits, by the latest request and whether there is an answer.
module _ {J : Type 0} where
  abbrev pub asked_and_answered : Option (ClarificationRequest J) → Bool
  asked_and_answered none = false
  asked_and_answered (some c) = is_answered c.status

  question_open : Option (ClarificationRequest J) → (has_answer : Bool) → Bool
  question_open none has_answer = true
  question_open (some c) has_answer = if is_answered c.status then false else not has_answer

  -- Whether a decision still waits: its verdict, what was asked, and whether there are an answer and
  -- a resolution.
  still_open : Verdict → Option (ClarificationRequest J) → (has_answer has_resolution : Bool) → Bool
  still_open clarify c has_answer has_resolution = question_open c has_answer
  still_open allow c has_answer has_resolution = not has_resolution
  still_open deny c has_answer has_resolution = not has_resolution
  still_open escalate c has_answer has_resolution = not has_resolution

  with_submission :
      GovernanceDecision J
      → Option (ClarificationRequest J)
      → Option (HumanResolution J)
      → Option (GovernanceSubmission J)
      → Option (PendingGovernanceReview J)
  with_submission d c r none = none
  with_submission d c r (some s) =
      some
        (record { submission = s; decision = d; clarification_request = c; latest_resolution = r })

  pub list_pending_reviews : FileGovernanceStore J → List (PendingGovernanceReview J)
  list_pending_reviews s =
      let submissions = latest_by (λ r. r.submission_id) s.submissions in
      let decisions = latest_by (λ r. r.submission_id) s.decisions in
      let resolutions = latest_by (λ r. r.submission_id) s.resolutions in
      let clarifications = latest_by (λ r. r.submission_id) s.clarifications in
      let answers = latest_by (λ r. r.submission_id) s.clarification_answers in
      selected (λ d. needs_review d.decision)
        (λ d.
          still_open d.decision (map_get d.submission_id clarifications)
            (map_has d.submission_id answers) (map_has d.submission_id resolutions))
        (λ d.
          with_submission d (map_get d.submission_id clarifications)
            (map_get d.submission_id resolutions) (map_get d.submission_id submissions))
        (values decisions)
