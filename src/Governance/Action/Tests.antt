-- ===== src/Governance/Action/Tests.antt =====
-- Runs of `executeGovernedAction` of src/governance/client.ts; the world is the list of what was
-- called.
use coreax.Prelude.{
  ℕ, String, Bool, true, false, none, some, List, [], ◌∷◌, ◌≡◌, refl, ◌⊎◌, if◌then◌else◌,
}
use coreax.Governance.{
  ok, raised, ReviewAction, reject, edit, escalate, HumanResolution, SubmissionResult,
}
use coreax.Governance.Action.{
  ExecuteOptions, GovernedActionResult, apply_human_resolution_payload, permits, is_deny, filled,
  filled_or_none, standing_of, resolved, needs_wait, blocked_record, succeeded_record,
  failed_record, governed, report_blocked, summarized, report_success, attempt, caught, run,
  awaited, execute_governed_action,
}
use coreax.Governance.Action.Permitted.{IsPermitted, execute_governed_action-IsPermitted}
use coreax.Governance.Action.Refused.{with_execute, execute_governed_action-ignores_execute}

action_computes : Unit {0}
unfolding execute_governed_action awaited run caught attempt report_success summarized
    report_blocked governed failed_record succeeded_record blocked_record needs_wait resolved
    standing_of filled_or_none filled is_deny apply_human_resolution_payload
action_computes = tt

abbrev Log : Type 0
Log = List String

abbrev held : SubmissionResult ℕ
held = record {
  submission_id = "s";
  payload = 1;
  decision = escalate;
  policy_reason = none;
  human_resolution = none;
  allow_execution = false;
  effective_payload = 1;
}

abbrev edited : ReviewAction → HumanResolution ℕ
edited a = record { action = a; edited_payload = some 7 }

abbrev noted : Bool → String
noted true = "executed"
noted false = "not executed"

abbrev reviewed : ReviewAction → ExecuteOptions Log ℕ ℕ
reviewed a = record {
  submit_submission = λ log. (ok held, log);
  waits = true;
  wait_for_human_resolution = λ id log. (ok (some (edited a)), log);
  execute = λ p log. (ok p, "run" ∷ log);
  summarize_result = none;
  summary_text = λ v. "value";
  report_execution = λ rec log. (ok rec, noted rec.executed ∷ log);
  now = λ log. "now";
}

-- The report of a success that fails: the catch reports the action that ran as not executed.
abbrev unreported : ExecuteOptions Log ℕ ℕ
unreported = record (reviewed edit) {
  report_execution =
      λ rec log. ((if rec.executed then raised "down" else ok rec), noted rec.executed ∷ log);
}

abbrev done : GovernedActionResult ℕ ℕ
done = record {
  submission = held;
  human_resolution = some (edited edit);
  execution_record = record {
    submission_id = "s";
    executed = true;
    final_payload = 7;
    status = "succeeded";
    result_summary = some "value";
    output_reference = none;
    error = none;
    created_at = "now";
  };
  value = some 7;
}

edit_runs : (execute_governed_action (reviewed edit) []).0 ≡ ok done
unfolding action_computes
edit_runs = refl

runs :
    ((execute_governed_action (reviewed edit) []).1 ≡ "executed" ∷ "run" ∷ [])
    × ((execute_governed_action (reviewed reject) []).1 ≡ "not executed" ∷ [])
    × ((execute_governed_action unreported [])
        ≡ (raised "down", "not executed" ∷ "executed" ∷ "run" ∷ []))
unfolding action_computes
runs = (refl, refl, refl)

execute_governed_action-IsPermitted_example :
    (done.value ≡ none) ⊎ IsPermitted held (some (edited edit))
execute_governed_action-IsPermitted_example =
    execute_governed_action-IsPermitted (reviewed edit) [] done edit_runs

held_only :
    (log : Log) (s : SubmissionResult ℕ)
    → ((reviewed reject).submit_submission log).0 ≡ ok s
    → s.allow_execution ≡ false
held_only log s e = cc

rejected_only :
    (id : String) (log : Log) (r : HumanResolution ℕ)
    → ((reviewed reject).wait_for_human_resolution id log).0 ≡ ok (some r)
    → permits r.action ≡ false
rejected_only id log r e = cc

execute_governed_action-ignores_execute_example :
    execute_governed_action (with_execute (reviewed reject) (λ p log. (ok 0, "other" ∷ log))) []
    ≡ execute_governed_action (reviewed reject) []
execute_governed_action-ignores_execute_example =
    execute_governed_action-ignores_execute (reviewed reject) (λ p log. (ok 0, "other" ∷ log)) []
      held_only rejected_only
