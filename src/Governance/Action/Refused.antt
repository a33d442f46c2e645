-- ===== src/Governance/Action/Refused.antt =====
-- src/governance/client.ts: an action that nobody allows has no effect at all.
use coreax.Prelude.{
  String, Bool, true, false, Option, none, some, ◌≡◌, refl, ap, ◌∙◌, if◌then◌else◌,
}
use coreax.Governance.{Try, ok, raised, HumanResolution, SubmissionResult}
use coreax.Governance.Action.{
  ExecuteOptions, GovernedActionResult, Standing, permits, continue, standing_of, resolved,
  needs_wait, blocked_record, governed, report_blocked, attempt, caught, run, awaited,
  execute_governed_action,
}

-- The same call for another action.
abbrev pub with_execute :
    {W P V : Type 0} → ExecuteOptions W P V → (P → W → Try V × W) → ExecuteOptions W P V
with_execute o f = record o { execute = f }

continue_ext :
    {W A B : Type 0} (r : Try A) (f g : A → W → Try B × W) (w : W)
    → ((a : A) (w : W) → r ≡ ok a → f a w ≡ g a w)
    → continue r f w ≡ continue r g w
continue_ext (ok a) f g w h = h a w refl
continue_ext (raised e) f g w h = refl

module _ {W P V : Type 0} (o : ExecuteOptions W P V) (f : P → W → Try V × W) where
  run-ignores_execute :
      (s : SubmissionResult P) (st : Standing P) (w : W)
      → st.allow_execution ≡ false
      → run (with_execute o f) s st w ≡ run o s st w
  unfolding run report_blocked blocked_record governed
  run-ignores_execute s st w h = go st.allow_execution h
    where
      go :
          (b : Bool)
          → b ≡ false
          → (if b
              then caught (with_execute o f) s st (attempt (with_execute o f) s st w)
              else report_blocked o s st w)
            ≡ (if b then caught o s st (attempt o s st w) else report_blocked o s st w)
      go true h = cc
      go false h = refl

  resolved-refused :
      (s : SubmissionResult P) (r : Option (HumanResolution P))
      → s.allow_execution ≡ false
      → ((h : HumanResolution P) → r ≡ some h → permits h.action ≡ false)
      → (resolved o s r).allow_execution ≡ false
  unfolding resolved standing_of
  resolved-refused s none h k = h
  resolved-refused s (some r) h k = k r refl

  abbrev waited : ExecuteOptions W P V → SubmissionResult P → W → Try (GovernedActionResult P V) × W
  waited o' s w =
      continue (o.wait_for_human_resolution s.submission_id w).0
        (λ r w1. run o' s (resolved o s r) w1) (o.wait_for_human_resolution s.submission_id w).1

  waited-ignores_execute :
      (s : SubmissionResult P) (w : W)
      → s.allow_execution ≡ false
      → ((id : String) (w : W) (r : HumanResolution P)
          → (o.wait_for_human_resolution id w).0 ≡ ok (some r)
          → permits r.action ≡ false)
      → waited (with_execute o f) s w ≡ waited o s w
  waited-ignores_execute s w h unapproved =
      continue_ext (o.wait_for_human_resolution s.submission_id w).0 _ _ _ (λ r w1 returned.
        run-ignores_execute s (resolved o s r) w1
          (resolved-refused s r h (λ x e. unapproved s.submission_id w x (returned ∙ ap ok e))))

  -- Where the review allows no submission and no resolution approves or edits, the action plays no
  -- part: whatever it is, the result and the effects are the same.
  pub execute_governed_action-ignores_execute :
      (w : W)
      → ((w : W) (s : SubmissionResult P)
          → (o.submit_submission w).0 ≡ ok s
          → s.allow_execution ≡ false)
      → ((id : String) (w : W) (r : HumanResolution P)
          → (o.wait_for_human_resolution id w).0 ≡ ok (some r)
          → permits r.action ≡ false)
      → execute_governed_action (with_execute o f) w ≡ execute_governed_action o w
  unfolding execute_governed_action awaited needs_wait standing_of resolved
  execute_governed_action-ignores_execute w disallowed unapproved =
      continue_ext (o.submit_submission w).0 _ _ _
        (λ s w1 returned. go s w1 (needs_wait o s) (disallowed w s returned))
    where
      go :
          (s : SubmissionResult P) (w : W) (b : Bool)
          → s.allow_execution ≡ false
          → (if b
              then waited (with_execute o f) s w
              else run (with_execute o f) s (standing_of o s) w)
            ≡ (if b then waited o s w else run o s (standing_of o s) w)
      go s w true h = waited-ignores_execute s w h unapproved
      go s w false h = run-ignores_execute s (standing_of o s) w h
