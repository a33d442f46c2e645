-- ===== src/Guard/Execute/Tests.antt =====
-- Runs of `execute` of src/guard/index.ts with given callbacks; the world is the list of what was
-- called.
use coreax.Prelude.{String, true, none, some, List, [], ◌∷◌, ◌≡◌, ◌≢◌, refl}
use coreax.Value.{undefined, str}
use coreax.Guard.{Outcome, block, escalate, tool_call, Input, Decision}
use coreax.Escalation.{Status, approved, rejected}
use coreax.Guard.Execute.{
  reason_or_denied, blocked_error, escalation_error, other, Done, ok, raised, Seen, with_escalation,
  ExecutionResult, Callbacks, status_text, apply_redaction, message_of, rethrown, refusal, resolved,
  announced, wait_and_finish, notified, escalated_of, escalation_flow, caught, redacted_input,
  run_block, run_outcome, execute,
}
use coreax.Guard.Execute.Control.{
  with_action, IsRefusal, execute-escalate_ignores_action, execute-escalate_refuses,
  execute-escalate_approved,
}

execute_computes : Unit {0}
unfolding execute run_outcome run_block redacted_input caught escalation_flow escalated_of notified
    wait_and_finish announced resolved refusal rethrown message_of apply_redaction status_text
    reason_or_denied
execute_computes = tt

abbrev Log : Type 0
Log = List String

abbrev act : Input → Seen → Log → Done String × Log
act i seen log = (ok "done", "action" ∷ log)

abbrev failing : Input → Seen → Log → Done String × Log
failing i seen log = (raised (other "boom"), "action" ∷ log)

abbrev answering : Status → Callbacks Log String
answering s = record {
  action = act;
  on_block = none;
  on_redact_input = none;
  enabled = true;
  request_escalation = λ i d log. (ok (record { id = "e1"; status = "pending" }), "request" ∷ log);
  on_requested = λ i e log. (ok tt, log);
  send_pending = λ i e log. (ok tt, "send" ∷ log);
  wait_for_resolution = λ id log. (ok s, "wait" ∷ log);
  announce_resolved = λ i e s log. "resolved" ∷ log;
  emit_error = λ i d e log. "error" ∷ log;
  wait_here = none;
  wait_by_default = none;
}

abbrev question : Input
question = record {
  kind = tool_call;
  content = str "x";
  target = undefined;
  context_target = undefined;
  tags = undefined;
}

abbrev deciding : Outcome → Decision
deciding o = record {
  outcome = o;
  reason = some "r";
  reasons = "r" ∷ [];
  violation = none;
  redacted_content = none;
}

runs :
    (execute (answering rejected) question (deciding escalate) [] ≡ (
      raised (blocked_error "Escalation resolved as rejected"),
      "error" ∷ "resolved" ∷ "wait" ∷ "send" ∷ "request" ∷ [],
    ))
    × ((execute (answering approved) question (deciding escalate) []).1
        ≡ "action" ∷ "resolved" ∷ "wait" ∷ "send" ∷ "request" ∷ [])
    × (execute (answering approved) question (deciding block) []
        ≡ (raised (blocked_error "Guard blocked execution (r)"), []))
unfolding execute_computes
runs = (refl, refl, refl)

never_approved :
    (id : String) (log : Log) → ((answering rejected).wait_for_resolution id log).0 ≢ ok approved
never_approved id log p = cc

execute-escalate_ignores_action_example :
    execute (with_action (answering rejected) failing) question (deciding escalate) []
    ≡ execute (answering rejected) question (deciding escalate) []
execute-escalate_ignores_action_example =
    execute-escalate_ignores_action (answering rejected) failing never_approved question
      (deciding escalate) [] refl

failed :
    (execute (with_action (answering approved) failing) question (deciding escalate) []).0
    ≡ raised (escalation_error "boom")
unfolding execute_computes
failed = refl

execute-escalate_refuses_example : IsRefusal (escalation_error "boom")
execute-escalate_refuses_example =
    execute-escalate_refuses (with_action (answering approved) failing) question (deciding escalate)
      [] (escalation_error "boom") refl failed

abbrev approved_run : ExecutionResult String
approved_run = record {
  decision = with_escalation (record {
    decision = deciding escalate;
    wait_for_resolution = true;
    escalation_id = "e1";
    status = "pending";
    resolution = some approved;
  });
  value = some "done";
  escalation = some approved;
}

approved_returns :
    (execute (answering approved) question (deciding escalate) []).0 ≡ ok approved_run
unfolding execute_computes
approved_returns = refl

execute-escalate_approved_example : approved_run.escalation ≡ some approved
execute-escalate_approved_example =
    execute-escalate_approved (answering approved) refl refl question (deciding escalate) []
      approved_run refl approved_returns
