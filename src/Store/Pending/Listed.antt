-- ===== src/Store/Pending/Listed.antt =====
-- src/governance/store.ts: which reviews are listed, and what a resolution changes of it.
use coreax.Prelude.{
  String, Bool, true, false, not, ◌||◌, ◌&&◌, Option, none, some, [], ◌∷◌, ◌++◌, ◌==◌, ◌≡◌, refl,
  sym, ap, ◌∙◌, if◌then◌else◌, is_some, find, map_get, Option-cases, Bool-cases, inl, inr,
}
use coreax.Governance.{Verdict, allow, deny, escalate, clarify}
use coreax.Store.{
  FileGovernanceStore, GovernanceSubmission, GovernanceDecision, ClarificationRequest,
  ClarificationAnswer, HumanResolution, append_resolution, id_or,
}
use coreax.Store.Latest.{latest_by, latest_of, then_pick, latest_here}
use coreax.Store.Latest.Picked.{find-selected_latest}
use coreax.Store.Latest.Added.{latest_of-key, latest_of-added, latest_of-added_other}
use coreax.Store.Pending.{
  PendingGovernanceReview, needs_review, is_answered, is_verdict, asked_and_answered, question_open,
  still_open, with_submission, list_pending_reviews,
}

two_tests :
    {B : Type 0} (n o w : Bool) (x : Option B)
    → (if n then o else false) ≡ w
    → (if n then if o then x else none else none) ≡ (if w then x else none)
two_tests true o w x e = rw e refl
two_tests false o w x e = rw (sym e) refl

module _ {J : Type 0} where
  abbrev pub latest_decision : String → FileGovernanceStore J → Option (GovernanceDecision J)
  latest_decision k s = latest_of (λ r. r.submission_id) k s.decisions

  latest_resolution : String → FileGovernanceStore J → Option (HumanResolution J)
  latest_resolution k s = latest_of (λ r. r.submission_id) k s.resolutions

  -- A submission waits on an escalation without a resolution, or on a question that is not answered
  -- or that nobody has asked yet.
  abbrev pub waits :
      Verdict → Option (ClarificationRequest J) → (has_answer has_resolution : Bool) → Bool
  waits v c has_answer has_resolution =
      (is_verdict v escalate && not has_resolution)
      || (is_verdict v clarify && not (asked_and_answered c) && not (is_some c && has_answer))

  review_from :
      GovernanceDecision J
      → Option (ClarificationRequest J)
      → Option (ClarificationAnswer J)
      → Option (HumanResolution J)
      → Option (GovernanceSubmission J)
      → Option (PendingGovernanceReview J)
  review_from d c a r submission =
      if waits d.decision c (is_some a) (is_some r) then with_submission d c r submission else none

  review_of :
      FileGovernanceStore J → String → GovernanceDecision J → Option (PendingGovernanceReview J)
  review_of s k d =
      review_from d (latest_of (λ r. r.submission_id) k s.clarifications)
        (latest_of (λ r. r.submission_id) k s.clarification_answers) (latest_resolution k s)
        (latest_of (λ r. r.submission_id) k s.submissions)

  -- The review of a submission, by the latest row of each kind that it has.
  pub pending_of : String → FileGovernanceStore J → Option (PendingGovernanceReview J)
  pending_of k s = then_pick (review_of s k) (latest_decision k s)

  waits-eq :
      (v : Verdict) (c : Option (ClarificationRequest J)) (a r : Bool)
      → (if needs_review v then still_open v c a r else false) ≡ waits v c a r
  unfolding needs_review still_open question_open
  waits-eq allow c a r = refl
  waits-eq deny c a r = refl
  waits-eq escalate c a true = refl
  waits-eq escalate c a false = refl
  waits-eq clarify none a r = refl
  waits-eq clarify (some c) a r = elim (Bool-cases (is_answered c.status)) [
    | inl t ↦ rw t refl
    | inr f ↦ rw f refl
  ]

  with_submission-named :
      (d : GovernanceDecision J) (c : Option (ClarificationRequest J))
      (r : Option (HumanResolution J)) (o : Option (GovernanceSubmission J))
      (b : PendingGovernanceReview J)
      → with_submission d c r o ≡ some b
      → b.decision.submission_id ≡ d.submission_id
  unfolding with_submission
  with_submission-named d c r none b h = cc
  with_submission-named d c r (some s) b h = ap decided (sym h)
    where
      decided : Option (PendingGovernanceReview J) → String
      decided none = ""
      decided (some p) = p.decision.submission_id

  pick-review_from :
      (d : GovernanceDecision J) (c : Option (ClarificationRequest J))
      (a : Option (ClarificationAnswer J)) (r : Option (HumanResolution J))
      (o : Option (GovernanceSubmission J))
      → (if needs_review d.decision
          then if still_open d.decision c (is_some a) (is_some r)
            then with_submission d c r o
            else none
          else none)
        ≡ review_from d c a r o
  unfolding review_from
  pick-review_from d c a r o =
      two_tests (needs_review d.decision) (still_open d.decision c (is_some a) (is_some r)) _
        (with_submission d c r o) (waits-eq d.decision c (is_some a) (is_some r))

  pick-review_of :
      (s : FileGovernanceStore J) (k : String) (d : GovernanceDecision J)
      → d.submission_id ≡ k
      → review_from d
          (map_get d.submission_id (latest_by (λ r. r.submission_id) s.clarifications))
          (map_get d.submission_id (latest_by (λ r. r.submission_id) s.clarification_answers))
          (map_get d.submission_id (latest_by (λ r. r.submission_id) s.resolutions))
          (map_get d.submission_id (latest_by (λ r. r.submission_id) s.submissions))
        ≡ review_of s k d
  unfolding review_of latest_resolution
  pick-review_of s k d here =
      let c = latest_here (λ r. r.submission_id) d.submission_id k s.clarifications here in
      let a = latest_here (λ r. r.submission_id) d.submission_id k s.clarification_answers here in
      let r = latest_here (λ r. r.submission_id) d.submission_id k s.resolutions here in
      let o = latest_here (λ r. r.submission_id) d.submission_id k s.submissions here in
      rw (c, a, r, o) refl

  -- For every submission, the reviews that are listed contain the one that its latest rows call for:
  -- none unless the latest decision escalates and no resolution has come, or asks for clarification
  -- and the latest question is neither marked as answered nor has an answer.
  pub list_pending_reviews-find :
      (k : String) (s : FileGovernanceStore J)
      → find (λ b. b.decision.submission_id == k) (list_pending_reviews s) ≡ pending_of k s
  unfolding list_pending_reviews pending_of
  list_pending_reviews-find k s =
      find-selected_latest (λ d. d.submission_id) _ _ _ (λ b. b.decision.submission_id)
        (λ d b h. with_submission-named d _ _ _ b h) k s.decisions
      ∙ (elim (Option-cases (latest_of (λ r. r.submission_id) k s.decisions)) [
        | inl nothing ↦ rw nothing refl
        | inr (d, this) ↦ rw this (
            pick-review_from d _ _ _ _
            ∙ pick-review_of s k d (latest_of-key (λ r. r.submission_id) k d s.decisions this))
      ])

  review_from-settled :
      (d : GovernanceDecision J) (c : Option (ClarificationRequest J))
      (a : Option (ClarificationAnswer J)) (r : HumanResolution J)
      (o : Option (GovernanceSubmission J))
      → d.decision ≡ escalate
      → review_from d c a (some r) o ≡ none
  unfolding review_from
  review_from-settled d c a r o verdict = rw verdict refl

  pending_of-resolved :
      (s : FileGovernanceStore J) (r : HumanResolution J) (uuid k : String)
      (d : GovernanceDecision J)
      → r.submission_id ≡ k
      → latest_decision k s ≡ some d
      → d.decision ≡ escalate
      → pending_of k (append_resolution r uuid s).1 ≡ none
  unfolding pending_of append_resolution latest_resolution review_of review_from
  pending_of-resolved s r uuid k d here latest verdict =
      let row : HumanResolution J = record r { resolution_id = id_or r.resolution_id uuid } in
      let added : latest_of (λ q. q.submission_id) k (s.resolutions ++ (row ∷ [])) ≡ some row =
        ap (λ l. latest_of (λ q. q.submission_id) l (s.resolutions ++ (row ∷ []))) (sym here)
        ∙ latest_of-added (λ q. q.submission_id) row s.resolutions in
      ap (then_pick (review_of (append_resolution r uuid s).1 k)) latest
      ∙ ap
          (λ x.
            review_from d (latest_of (λ q. q.submission_id) k s.clarifications)
              (latest_of (λ q. q.submission_id) k s.clarification_answers) x
              (latest_of (λ q. q.submission_id) k s.submissions))
          added
      ∙ review_from-settled d _ _ row _ verdict

  pending_of-others :
      (s : FileGovernanceStore J) (r : HumanResolution J) (uuid k : String)
      → (r.submission_id == k) ≡ false
      → pending_of k (append_resolution r uuid s).1 ≡ pending_of k s
  unfolding pending_of append_resolution latest_resolution review_of
  pending_of-others s r uuid k other =
      let row : HumanResolution J = record r { resolution_id = id_or r.resolution_id uuid } in
      ap
        (λ x.
          then_pick
            (λ d.
              review_from d (latest_of (λ q. q.submission_id) k s.clarifications)
                (latest_of (λ q. q.submission_id) k s.clarification_answers) x
                (latest_of (λ q. q.submission_id) k s.submissions))
            (latest_decision k s))
        (latest_of-added_other (λ q. q.submission_id) k row s.resolutions other)

  -- A resolution that is stored, whatever its action, takes the review of its escalated submission
  -- off the list and leaves the reviews of all other submissions as they are.
  pub append_resolution-settles :
      (s : FileGovernanceStore J) (r : HumanResolution J) (uuid : String) (d : GovernanceDecision J)
      → latest_decision r.submission_id s ≡ some d
      → d.decision ≡ escalate
      → (find
            (λ b. b.decision.submission_id == r.submission_id)
            (list_pending_reviews (append_resolution r uuid s).1)
          ≡ none)
        × ((k : String)
            → (r.submission_id == k) ≡ false
            → find
                (λ b. b.decision.submission_id == k)
                (list_pending_reviews (append_resolution r uuid s).1)
              ≡ find (λ b. b.decision.submission_id == k) (list_pending_reviews s))
  append_resolution-settles s r uuid d latest verdict = (
    list_pending_reviews-find r.submission_id (append_resolution r uuid s).1
        ∙ pending_of-resolved s r uuid r.submission_id d refl latest verdict,
    λ k other.
        list_pending_reviews-find k (append_resolution r uuid s).1
        ∙ pending_of-others s r uuid k other
        ∙ sym (list_pending_reviews-find k s),
  )
