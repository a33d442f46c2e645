-- ===== src/Governance/Action/Permitted.antt =====
-- src/governance/client.ts: an action runs only where its submission or a resolution allows it.
use coreax.Prelude.{Bool, true, false, Option, none, some, ◌≡◌, refl, ◌⊎◌, inl, inr, if◌then◌else◌}
use mathlib.Core.Path.{subst}
use coreax.Governance.{Try, ok, raised, HumanResolution, SubmissionResult}
use coreax.Governance.Action.{
  ExecuteOptions, GovernedActionResult, Standing, permits, continue, standing_of, resolved,
  needs_wait, governed, report_blocked, summarized, report_success, attempt, caught, run, awaited,
  execute_governed_action,
}

-- The submission was allowed, or the resolution approves or edits it.
abbrev pub IsPermitted : {P : Type 0} → SubmissionResult P → Option (HumanResolution P) → Type 0
IsPermitted {P} s r =
    (s.allow_execution ≡ true)
    ⊎ ((h : HumanResolution P) × (r ≡ some h) × (permits h.action ≡ true))

-- A result without a value, or a permitted one.
abbrev pub Clean : {P V : Type 0} → GovernedActionResult P V → Type 0
Clean r = (r.value ≡ none) ⊎ IsPermitted r.submission r.human_resolution

abbrev CleanTry : {P V : Type 0} → Try (GovernedActionResult P V) → Type 0
CleanTry (ok r) = Clean r
CleanTry (raised e) = Unit {0}

continue-Clean :
    {W P V A : Type 0} (r : Try A) (f : A → W → Try (GovernedActionResult P V) × W) (w : W)
    → ((a : A) (w : W) → CleanTry (f a w).0)
    → CleanTry (continue r f w).0
continue-Clean (ok a) f w h = h a w
continue-Clean (raised e) f w h = tt

module _ {W P V : Type 0} (o : ExecuteOptions W P V) where
  attempt-Clean :
      (s : SubmissionResult P) (st : Standing P) (w : W)
      → IsPermitted s st.resolution
      → CleanTry (attempt o s st w).0
  unfolding attempt report_success governed
  attempt-Clean s st w h = continue-Clean (o.execute st.effective_payload w).0 _ _ (λ v w1.
      continue-Clean (summarized o v) _ _
        (λ summary w2. continue-Clean (o.report_execution _ _).0 _ _ (λ rec w3. inr h)))

  caught-Clean :
      (s : SubmissionResult P) (st : Standing P) (m : Try (GovernedActionResult P V) × W)
      → CleanTry m.0
      → CleanTry (caught o s st m).0
  unfolding caught
  caught-Clean s st (ok r, w) h = h
  caught-Clean s st (raised e, w) h = continue-Clean (o.report_execution _ _).0 _ _ (λ rec w1. tt)

  blocked-Clean :
      (s : SubmissionResult P) (st : Standing P) (w : W) → CleanTry (report_blocked o s st w).0
  unfolding report_blocked governed
  blocked-Clean s st w = continue-Clean (o.report_execution _ _).0 _ _ (λ rec w1. inl refl)

  run-Clean :
      (s : SubmissionResult P) (st : Standing P) (w : W)
      → (st.allow_execution ≡ true → IsPermitted s st.resolution)
      → CleanTry (run o s st w).0
  unfolding run
  run-Clean s st w h = go st.allow_execution h
    where
      go :
          (b : Bool)
          → (b ≡ true → IsPermitted s st.resolution)
          → CleanTry (if b then caught o s st (attempt o s st w) else report_blocked o s st w).0
      go true h = caught-Clean s st (attempt o s st w) (attempt-Clean s st w (h refl))
      go false h = blocked-Clean s st w

  resolved-IsPermitted :
      (s : SubmissionResult P) (r : Option (HumanResolution P))
      → (resolved o s r).allow_execution ≡ true
      → IsPermitted s (resolved o s r).resolution
  unfolding resolved standing_of
  resolved-IsPermitted s none h = inl h
  resolved-IsPermitted s (some r) h = inr (r, refl, h)

  awaited-Clean : (s : SubmissionResult P) (w : W) → CleanTry (awaited o s w).0
  unfolding awaited standing_of
  awaited-Clean s w = go (needs_wait o s)
    where
      waited : Try (GovernedActionResult P V) × W
      waited =
          continue (o.wait_for_human_resolution s.submission_id w).0
            (λ r w1. run o s (resolved o s r) w1) (o.wait_for_human_resolution s.submission_id w).1

      go : (b : Bool) → CleanTry (if b then waited else run o s (standing_of o s) w).0
      go true =
          continue-Clean (o.wait_for_human_resolution s.submission_id w).0 _ _
            (λ r w1. run-Clean s (resolved o s r) w1 (resolved-IsPermitted s r))
      go false = run-Clean s (standing_of o s) w (λ h. inl h)

  -- A governed action that returns a value was allowed by its submission, or a person approved or
  -- edited it: the result says which.
  pub execute_governed_action-IsPermitted :
      (w : W) (r : GovernedActionResult P V)
      → (execute_governed_action o w).0 ≡ ok r
      → (r.value ≡ none) ⊎ IsPermitted r.submission r.human_resolution
  unfolding execute_governed_action
  execute_governed_action-IsPermitted w r h =
      subst CleanTry h (continue-Clean (o.submit_submission w).0 _ _ (λ s w1. awaited-Clean s w1))
