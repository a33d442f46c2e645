-- ===== src/Store/ReviewLoop/Listed.antt =====
-- src/review-loop/store.ts: which reviews are listed.
use coreax.Prelude.{
  String, not, Option, none, some, ◌==◌, ◌≡◌, refl, ap, ◌∙◌, sym, find, map_get, is_some,
  if◌then◌else◌, Option-cases, inl, inr,
}
use coreax.Store.Latest.{latest_by, latest_of, then_pick, latest_here}
use coreax.Store.Latest.Picked.{find-selected_latest}
use coreax.Store.Latest.Added.{latest_of-key}
use coreax.Store.ReviewLoop.{
  Sec0Decision, ActionProposal, PendingReview, FileReviewLoopStore, is_escalated,
  get_latest_resolution, with_proposal, list_pending_reviews,
}

module _ {J : Type 0} where
  -- The review of a decision on this proposal.
  abbrev pub review_of : FileReviewLoopStore J → String → Sec0Decision J → Option (PendingReview J)
  review_of s k d =
      if is_escalated d.decision
      then if not (is_some (get_latest_resolution k s))
        then with_proposal d (latest_of (λ r. r.proposal_id) k s.proposals)
        else none
      else none

  with_proposal-named :
      (d : Sec0Decision J) (o : Option (ActionProposal J)) (b : PendingReview J)
      → with_proposal d o ≡ some b
      → b.decision.proposal_id ≡ d.proposal_id
  unfolding with_proposal
  with_proposal-named d none b h = cc
  with_proposal-named d (some p) b h = ap decided (sym h)
    where
      decided : Option (PendingReview J) → String
      decided none = ""
      decided (some p) = p.decision.proposal_id

  pick-review_of :
      (s : FileReviewLoopStore J) (k : String) (d : Sec0Decision J)
      → d.proposal_id ≡ k
      → (if is_escalated d.decision
          then if not
              (is_some (map_get d.proposal_id (latest_by (λ r. r.proposal_id) s.resolutions)))
            then with_proposal d
                (map_get d.proposal_id (latest_by (λ r. r.proposal_id) s.proposals))
            else none
          else none)
        ≡ review_of s k d
  unfolding get_latest_resolution
  pick-review_of s k d here =
      let r = latest_here (λ r. r.proposal_id) d.proposal_id k s.resolutions here in
      let p = latest_here (λ r. r.proposal_id) d.proposal_id k s.proposals here in rw (r, p) refl

  -- For every proposal, the reviews that are listed contain the one of its latest decision if this
  -- escalates, no resolution of the proposal is stored and the proposal itself is; otherwise none.
  pub list_pending_reviews-escalated :
      (k : String) (s : FileReviewLoopStore J)
      → find (λ b. b.decision.proposal_id == k) (list_pending_reviews s)
        ≡ then_pick (review_of s k) (latest_of (λ r. r.proposal_id) k s.decisions)
  unfolding list_pending_reviews
  list_pending_reviews-escalated k s =
      find-selected_latest (λ d. d.proposal_id) _ _ _ (λ b. b.decision.proposal_id)
        (λ d b h. with_proposal-named d _ b h) k s.decisions
      ∙ (elim (Option-cases (latest_of (λ r. r.proposal_id) k s.decisions)) [
        | inl nothing ↦ rw nothing refl
        | inr (d, this) ↦
            rw this (pick-review_of s k d (latest_of-key (λ r. r.proposal_id) k d s.decisions this))
      ])
