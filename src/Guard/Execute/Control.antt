-- ===== src/Guard/Execute/Control.antt =====
-- src/guard/index.ts: when `execute` of a guard runs the action, and with what errors it refuses.
use coreax.Prelude.{
  String, Bool, true, false, none, some, ◌≡◌, ◌≢◌, refl, sym, ap, ◌∙◌, inl, inr, Bool-cases,
  if◌then◌else◌,
}
use mathlib.Core.Path.{subst}
use coreax.Guard.{block, escalate, Input, Decision}
use coreax.Escalation.{Status, approved, rejected, expired, timeout}
use coreax.Guard.Execute.{
  GuardError, blocked_error, timeout_error, escalation_error, abort_error, config_error, other,
  Done, ok, raised, Seen, Escalated, ExecutionResult, Callbacks, rethrown, waits, resolved,
  announced, wait_and_finish, notified, escalated_of, continue, throw, escalation_flow, caught,
  run_block, run_outcome, execute,
}

-- The callbacks with another action.
abbrev pub with_action :
    {W V : Type 0} → Callbacks W V → (Input → Seen → W → Done V × W) → Callbacks W V
with_action cb a = record cb { action = a }

continue_ext :
    {W A B : Type 0} (r : Done A) (f g : A → W → Done B × W) (w : W)
    → ((x : A) (w : W) → f x w ≡ g x w)
    → continue r f w ≡ continue r g w
continue_ext (ok x) f g w h = h x w
continue_ext (raised e) f g w h = refl

-- Under the outcome block the action plays no part.
pub execute-block_ignores_action :
    {W V : Type 0} (cb : Callbacks W V) (a : Input → Seen → W → Done V × W) (i : Input)
    (d : Decision) (w : W)
    → d.outcome ≡ block
    → execute (with_action cb a) i d w ≡ execute cb i d w
unfolding execute run_outcome run_block
execute-block_ignores_action cb a i d w h = rw h

module _ {W V : Type 0} (cb : Callbacks W V) (a : Input → Seen → W → Done V × W)
    (unapproved : (id : String) (w : W) → (cb.wait_for_resolution id w).0 ≢ ok approved) where
  resolved_ignores_action :
      (i : Input) (e : Escalated) (s : Status) (w : W)
      → s ≢ approved
      → resolved (with_action cb a) i e s w ≡ resolved cb i e s w
  unfolding resolved
  resolved_ignores_action i e approved w h = absurd (h refl)
  resolved_ignores_action i e _ w h = refl

  wait_ignores_action :
      (i : Input) (e : Escalated) (w : W)
      → wait_and_finish (with_action cb a) i e w ≡ wait_and_finish cb i e w
  unfolding wait_and_finish announced
  wait_ignores_action i e w = elim (Bool-cases (waits cb)) [
    | inl wait ↦
        rw wait (go (cb.wait_for_resolution e.escalation_id w).0 (unapproved e.escalation_id w))
    | inr skip ↦ rw skip refl
  ]
    where
      go :
          (r : Done Status)
          → r ≢ ok approved
          → continue r
              (announced (with_action cb a) i e)
              (cb.wait_for_resolution e.escalation_id w).1
            ≡ continue r (announced cb i e) (cb.wait_for_resolution e.escalation_id w).1
      go (raised x) h = refl
      go (ok s) h = resolved_ignores_action i e s _ (λ p. h (ap ok p))

  flow_ignores_action :
      (i : Input) (d : Decision) (w : W)
      → escalation_flow (with_action cb a) i d w ≡ escalation_flow cb i d w
  unfolding escalation_flow notified escalated_of
  flow_ignores_action i d w = continue_ext (cb.request_escalation i d w).0 _ _ _ (λ made w1.
      continue_ext (cb.on_requested i (escalated_of cb d made) w1).0 _ _ _
        (λ u w2. wait_ignores_action i (escalated_of cb d made) _))

  caught_ignores :
      (i : Input) (d : Decision) (m : Done (ExecutionResult V) × W)
      → caught (with_action cb a) i d m ≡ caught cb i d m
  unfolding caught
  caught_ignores i d (ok r, w) = refl
  caught_ignores i d (raised e, w) = refl

  -- Under the outcome escalate, where no wait ever returns an approval, the action plays no part:
  -- whatever it is, the result and the effects are the same.
  pub execute-escalate_ignores_action :
      (i : Input) (d : Decision) (w : W)
      → d.outcome ≡ escalate
      → execute (with_action cb a) i d w ≡ execute cb i d w
  unfolding execute run_outcome caught
  execute-escalate_ignores_action i d w h =
      ap (λ o. run_outcome (with_action cb a) o i d w) h
      ∙ go cb.enabled
      ∙ sym (ap (λ o. run_outcome cb o i d w) h)
    where
      off : W → Done (ExecutionResult V) × W
      off = throw (blocked_error "Guard escalation is disabled and cannot proceed")

      go :
          (b : Bool)
          → (if b
                then (λ w. caught (with_action cb a) i d (escalation_flow (with_action cb a) i d w))
                else off)
              w
            ≡ (if b then (λ w. caught cb i d (escalation_flow cb i d w)) else off) w
      go true =
          caught_ignores i d (escalation_flow (with_action cb a) i d w)
          ∙ ap (caught cb i d) (flow_ignores_action i d w)
      go false = refl

-- The classes of errors with which a guard refuses.
abbrev pub IsRefusal : GuardError → Type 0
IsRefusal (blocked_error m) = Unit {0}
IsRefusal (timeout_error m) = Unit {0}
IsRefusal (escalation_error m) = Unit {0}
IsRefusal _ = ⊥

rethrown-IsRefusal : (e : GuardError) → IsRefusal (rethrown e)
unfolding rethrown
rethrown-IsRefusal (blocked_error m) = tt
rethrown-IsRefusal (timeout_error m) = tt
rethrown-IsRefusal (escalation_error m) = tt
rethrown-IsRefusal (abort_error m) = tt
rethrown-IsRefusal (config_error m) = tt
rethrown-IsRefusal (other m) = tt

abbrev Refuses : {A : Type 0} → Done A → Type 0
Refuses (ok r) = Unit {0}
Refuses (raised e) = IsRefusal e

module _ {W V : Type 0} (cb : Callbacks W V) where
  caught-Refuses :
      (i : Input) (d : Decision) (m : Done (ExecutionResult V) × W) → Refuses (caught cb i d m).0
  unfolding caught
  caught-Refuses i d (ok r, w) = tt
  caught-Refuses i d (raised e, w) = rethrown-IsRefusal e

  escalate-Refuses : (i : Input) (d : Decision) (w : W) → Refuses (run_outcome cb escalate i d w).0
  unfolding run_outcome
  escalate-Refuses i d w =
      elim cb.enabled
        as (λ b.
          Refuses
            ((if b
                then (λ w. caught cb i d (escalation_flow cb i d w))
                else throw (blocked_error "Guard escalation is disabled and cannot proceed"))
              w).0) [ true ↦ caught-Refuses i d (escalation_flow cb i d w) | false ↦ tt ]

  -- Under the outcome escalate, an error of any callback, of the action too, leaves `execute` as a
  -- blocked, a timeout or an escalation error, never as an error of another class.
  pub execute-escalate_refuses :
      (i : Input) (d : Decision) (w : W) (e : GuardError)
      → d.outcome ≡ escalate
      → (execute cb i d w).0 ≡ raised e
      → IsRefusal e
  unfolding execute
  execute-escalate_refuses i d w e h failed =
      subst Refuses failed
        (subst (λ o. Refuses (run_outcome cb o i d w).0) (sym h) (escalate-Refuses i d w))

-- A result that an approval stands behind.
abbrev pub Approved : {V : Type 0} → Done (ExecutionResult V) → Type 0
Approved (ok r) = r.escalation ≡ some approved
Approved (raised e) = Unit {0}

continue-Approved :
    {W V A : Type 0} (r : Done A) (f : A → W → Done (ExecutionResult V) × W) (w : W)
    → ((x : A) (w : W) → Approved (f x w).0)
    → Approved (continue r f w).0
continue-Approved (ok x) f w h = h x w
continue-Approved (raised e) f w h = tt

module _ {W V : Type 0} (cb : Callbacks W V) (unhandled : cb.on_block ≡ none)
    (waiting : waits cb ≡ true) where
  resolved-Approved :
      (i : Input) (e : Escalated) (s : Status) (w : W) → Approved (resolved cb i e s w).0
  unfolding resolved
  resolved-Approved i e approved w = continue-Approved (cb.action i _ w).0 _ _ (λ v w. refl)
  resolved-Approved i e rejected w = rw unhandled tt
  resolved-Approved i e expired w = rw unhandled tt
  resolved-Approved i e timeout w = rw unhandled tt

  wait-Approved : (i : Input) (e : Escalated) (w : W) → Approved (wait_and_finish cb i e w).0
  unfolding wait_and_finish announced
  wait-Approved i e w = rw waiting (
      continue-Approved (cb.wait_for_resolution e.escalation_id w).0 _ _
        (λ s w. resolved-Approved i e s _))

  flow-Approved : (i : Input) (d : Decision) (w : W) → Approved (escalation_flow cb i d w).0
  unfolding escalation_flow notified
  flow-Approved i d w = continue-Approved (cb.request_escalation i d w).0 _ _ (λ made w1.
      continue-Approved (cb.on_requested i (escalated_of cb d made) w1).0 _ _
        (λ u w2. wait-Approved i (escalated_of cb d made) _))

  caught-Approved :
      (i : Input) (d : Decision) (m : Done (ExecutionResult V) × W)
      → Approved m.0
      → Approved (caught cb i d m).0
  unfolding caught
  caught-Approved i d (ok r, w) h = h
  caught-Approved i d (raised e, w) h = tt

  escalate-Approved :
      (i : Input) (d : Decision) (w : W) → Approved (run_outcome cb escalate i d w).0
  unfolding run_outcome
  escalate-Approved i d w =
      elim cb.enabled
        as (λ b.
          Approved
            ((if b
                then (λ w. caught cb i d (escalation_flow cb i d w))
                else throw (blocked_error "Guard escalation is disabled and cannot proceed"))
              w).0) [
                | true ↦ caught-Approved i d (escalation_flow cb i d w) (flow-Approved i d w)
                | false ↦ tt
              ]

  -- Where a guard waits for resolutions and has no handler for blocks, `execute` under the outcome
  -- escalate returns a result only with the resolution approved.
  pub execute-escalate_approved :
      (i : Input) (d : Decision) (w : W) (r : ExecutionResult V)
      → d.outcome ≡ escalate
      → (execute cb i d w).0 ≡ ok r
      → r.escalation ≡ some approved
  unfolding execute
  execute-escalate_approved i d w r h done =
      subst Approved done
        (subst (λ o. Approved (run_outcome cb o i d w).0) (sym h) (escalate-Approved i d w))
