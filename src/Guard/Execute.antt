-- ===== src/Guard/Execute.antt =====
-- src/guard/index.ts and escalation.ts: `execute` runs an action behind a decision. The callbacks act
-- on a world of their own; what each may throw is an error value.
pub mod Control
mod Tests
use coreax.Prelude.{
  String, Bool, true, false, Option, none, some, ◌==◌, get_or, or_else, if◌then◌else◌,
}
use Prim.Native.String
use coreax.Value.{str}
use coreax.Guard.{Outcome, allow, redact, block, escalate, Input, Decision}
use coreax.Escalation.{Status, approved, rejected, expired, timeout}
use coreax.Escalation.Manager.Calls.{Created}

-- The classes of errors that `execute` tells apart; `other` is any error of a callback.
pub data GuardError : Type 0 where
  blocked_error timeout_error escalation_error abort_error config_error other : String → GuardError

pub data Done {ℓ} (A : Type ℓ) : Type ℓ where
  ok : A → Done A
  raised : GuardError → Done A

-- `GuardDecision["escalation"]`
pub record Escalated : Type 0 where
  pub decision : Decision
  pub wait_for_resolution : Bool
  pub escalation_id : String
  pub status : String
  pub resolution : Option Status

pub data Seen : Type 0 where
  plain : Decision → Seen
  with_escalation : Escalated → Seen

pub record ExecutionResult (V : Type 0) : Type 0 where
  pub decision : Seen
  pub value : Option V
  pub escalation : Option Status

pub record Callbacks (W V : Type 0) : Type 0 where
  pub action : Input → Seen → W → Done V × W
  pub on_block : Option (Seen → W → Done V × W)
  pub on_redact_input : Option (Input → Decision → W → Done Input × W)
  -- the lifecycle of an escalation: its request, its wait, the hooks and the transport
  pub enabled : Bool
  pub request_escalation : Input → Decision → W → Done Created × W
  pub on_requested : Input → Escalated → W → Done (Unit {0}) × W
  pub send_pending : Input → Escalated → W → Done (Unit {0}) × W
  pub wait_for_resolution : String → W → Done Status × W
  -- both hooks and the transport, whose errors are swallowed
  pub announce_resolved : Input → Escalated → Status → W → W
  pub emit_error : Input → Decision → GuardError → W → W
  -- `handlers?.waitForEscalation` and `config.escalation?.waitForResolutionByDefault`
  pub wait_here : Option Bool
  pub wait_by_default : Option Bool

module _ {W A B : Type 0} where
  abbrev continue : Done A → (A → W → Done B × W) → W → Done B × W
  continue (ok a) f w = f a w
  continue (raised e) f w = (raised e, w)

  infixl 10 ◌>>=◌
  abbrev ◌>>=◌ : (W → Done A × W) → (A → W → Done B × W) → W → Done B × W
  ◌>>=◌ m f w = let (r, w') = m w in continue r f w'

module _ {W A : Type 0} where
  abbrev return : A → W → Done A × W
  return a w = (ok a, w)

  abbrev throw : GuardError → W → Done A × W
  throw e w = (raised e, w)

status_text : Status → String
status_text approved = "approved"
status_text rejected = "rejected"
status_text expired = "expired"
status_text timeout = "timeout"

pub apply_redaction : Input → Decision → Input
apply_redaction i d = elim d.redacted_content [
  | none ↦ i
  | some text ↦ if text == "" then i else record i { content = str text }
]

pub message_of : GuardError → String
message_of (blocked_error m) = m
message_of (timeout_error m) = m
message_of (escalation_error m) = m
message_of (abort_error m) = m
message_of (config_error m) = m
message_of (other m) = m

-- What the `catch` throws: a block and a timeout as they are, all else as a failed escalation.
pub rethrown : GuardError → GuardError
rethrown (blocked_error m) = blocked_error m
rethrown (timeout_error m) = timeout_error m
rethrown e =
    escalation_error (if message_of e == "" then "Escalation flow failed" else message_of e)

-- `decision.reason || "policy_denied"`
reason_or_denied : Decision → String
reason_or_denied d =
    let reason = get_or d.reason "" in if reason == "" then "policy_denied" else reason

refusal : Status → GuardError
refusal timeout = timeout_error "Escalation resolution timed out"
refusal s = blocked_error (String.◌++◌ "Escalation resolved as " (status_text s))

module _ {W V : Type 0} (cb : Callbacks W V) where
  abbrev waits : Bool
  waits = get_or (or_else cb.wait_here cb.wait_by_default) true

  abbrev result : Seen → Option Status → V → W → Done (ExecutionResult V) × W
  result seen escalation v =
      return (record { decision = seen; value = some v; escalation = escalation })

  -- The resolution decides: an approval runs the action, all else blocks.
  pub resolved : Input → Escalated → Status → W → Done (ExecutionResult V) × W
  resolved i e approved = do
    v ← cb.action i (with_escalation (record e { resolution = some approved }))
    result (with_escalation (record e { resolution = some approved })) (some approved) v
  resolved i e status = elim cb.on_block [
    | some handler ↦ do
      v ← handler (with_escalation (record e { resolution = some status }))
      result (with_escalation (record e { resolution = some status })) (some status) v
    | none ↦ throw (refusal status)
  ]

  announced : Input → Escalated → Status → W → Done (ExecutionResult V) × W
  announced i e status w = resolved i e status (cb.announce_resolved i e status w)

  -- `maybeWaitForResolution` and what follows it
  pub wait_and_finish : Input → Escalated → W → Done (ExecutionResult V) × W
  wait_and_finish i e =
      if waits
      then (do status ← cb.wait_for_resolution e.escalation_id; announced i e status)
      else return (record { decision = with_escalation e; value = none; escalation = none })

  -- An error of the transport is logged and swallowed.
  notified : Input → Escalated → W → Done (ExecutionResult V) × W
  notified i e w = wait_and_finish i e (cb.send_pending i e w).1

  escalated_of : Decision → Created → Escalated
  escalated_of d made = record {
    decision = d;
    wait_for_resolution = waits;
    escalation_id = made.id;
    status = made.status;
    resolution = none;
  }

  -- The body of the `try`.
  pub escalation_flow : Input → Decision → W → Done (ExecutionResult V) × W
  escalation_flow i d = do
    made ← cb.request_escalation i d
    seen ← cb.on_requested i (escalated_of d made)
    notified i (escalated_of d made)

  -- The `catch`.
  caught : Input → Decision → Done (ExecutionResult V) × W → Done (ExecutionResult V) × W
  caught i d (ok r, w) = (ok r, w)
  caught i d (raised e, w) = (raised (rethrown e), cb.emit_error i d e w)

  redacted_input : Input → Decision → W → Done Input × W
  redacted_input i d = elim cb.on_redact_input [
    | some handler ↦ handler i d
    | none ↦ return (apply_redaction i d)
  ]

  run_block : Decision → W → Done (ExecutionResult V) × W
  run_block d = elim cb.on_block [
    | some handler ↦ do v ← handler (plain d); result (plain d) none v
    | none ↦ throw (
        blocked_error
          (String.◌++◌ "Guard blocked execution (" (String.◌++◌ (reason_or_denied d) ")")))
  ]

  pub run_outcome : Outcome → Input → Decision → W → Done (ExecutionResult V) × W
  run_outcome allow i d = do v ← cb.action i (plain d); result (plain d) none v
  run_outcome redact i d = do
    given ← redacted_input i d
    v ← cb.action given (plain d)
    result (plain d) none v
  run_outcome block i d = run_block d
  run_outcome escalate i d =
      if cb.enabled
      then (λ w. caught i d (escalation_flow i d w))
      else throw (blocked_error "Guard escalation is disabled and cannot proceed")

  -- `execute` from the decision on, which `check` has made.
  pub execute : Input → Decision → W → Done (ExecutionResult V) × W
  execute i d = run_outcome d.outcome i d
