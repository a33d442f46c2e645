-- ===== src/Governance/Action.antt =====
-- src/governance/client.ts: `executeGovernedAction`, which submits an action for review, waits for a
-- resolution, runs the action where that is allowed and reports what became of it.
pub mod Permitted
pub mod Refused
mod Tests
use coreax.Prelude.{
  String, Bool, true, false, not, ◌&&◌, ◌||◌, Option, none, some, ◌==◌, get_or, if◌then◌else◌,
}
use coreax.Governance.{
  Try, ok, raised, ReviewAction, approve, edit, Verdict, deny, HumanResolution, SubmissionResult,
  ExecutionRecord,
}

pub record GovernedActionSummary : Type 0 where
  pub status : Option String
  pub result_summary : Option String
  pub output_reference : Option String

-- The client, the action and the clock, on a world of their own.
pub record ExecuteOptions (W P V : Type 0) : Type 0 where
  -- the normalized submission is sent
  pub submit_submission : W → Try (SubmissionResult P) × W
  -- `undefined` and `false` are no wait
  pub waits : Bool
  pub wait_for_human_resolution : String → W → Try (Option (HumanResolution P)) × W
  pub execute : P → W → Try V × W
  pub summarize_result : Option (V → Try GovernedActionSummary)
  pub summary_text : V → String
  pub report_execution : ExecutionRecord P → W → Try (ExecutionRecord P) × W
  pub now : W → String

pub record GovernedActionResult (P V : Type 0) : Type 0 where
  pub submission : SubmissionResult P
  pub human_resolution : Option (HumanResolution P)
  pub execution_record : ExecutionRecord P
  pub value : Option V

-- The three variables that a resolution may change.
pub record Standing (P : Type 0) : Type 0 where
  pub resolution : Option (HumanResolution P)
  pub effective_payload : P
  pub allow_execution : Bool

pub apply_human_resolution_payload : {P : Type 0} → P → HumanResolution P → P
apply_human_resolution_payload original r = elim r.action [
  | edit ↦ get_or r.edited_payload original
  | _ ↦ original
]

-- `resolution.action === "approve" || resolution.action === "edit"`
abbrev pub permits : ReviewAction → Bool
permits approve = true
permits edit = true
permits _ = false

is_deny : Verdict → Bool
is_deny deny = true
is_deny _ = false

filled : Option String → String → String
filled o d = let s = get_or o "" in if s == "" then d else s

-- `s || null`
filled_or_none : Option String → Option String
filled_or_none o = let s = get_or o "" in if s == "" then none else some s

module _ {W A B : Type 0} where
  abbrev pub continue : Try A → (A → W → Try B × W) → W → Try B × W
  continue (ok a) f w = f a w
  continue (raised e) f w = (raised e, w)

module _ {W P V : Type 0} (o : ExecuteOptions W P V) where
  pub standing_of : SubmissionResult P → Standing P
  standing_of s = record {
    resolution = s.human_resolution;
    effective_payload = s.effective_payload;
    allow_execution = s.allow_execution;
  }

  pub resolved : SubmissionResult P → Option (HumanResolution P) → Standing P
  resolved s none = record (standing_of s) { resolution = none }
  resolved s (some r) = record {
    resolution = some r;
    effective_payload = apply_human_resolution_payload s.payload r;
    allow_execution = permits r.action;
  }

  pub needs_wait : SubmissionResult P → Bool
  needs_wait s = not s.allow_execution && not (is_deny s.decision) && o.waits

  blocked_record : SubmissionResult P → Standing P → W → ExecutionRecord P
  blocked_record s st w = record {
    submission_id = s.submission_id;
    executed = false;
    final_payload = st.effective_payload;
    status = "blocked";
    result_summary = none;
    output_reference = none;
    error = some (filled s.policy_reason "execution_blocked");
    created_at = o.now w;
  }

  succeeded_record : SubmissionResult P → Standing P → GovernedActionSummary → W → ExecutionRecord P
  succeeded_record s st summary w = record {
    submission_id = s.submission_id;
    executed = true;
    final_payload = st.effective_payload;
    status = filled summary.status "succeeded";
    result_summary = filled_or_none summary.result_summary;
    output_reference = filled_or_none summary.output_reference;
    error = none;
    created_at = o.now w;
  }

  failed_record : SubmissionResult P → Standing P → String → W → ExecutionRecord P
  failed_record s st e w = record {
    submission_id = s.submission_id;
    executed = false;
    final_payload = st.effective_payload;
    status = "failed";
    result_summary = none;
    output_reference = none;
    error = some e;
    created_at = o.now w;
  }

  governed :
      SubmissionResult P
      → Standing P
      → Option V
      → ExecutionRecord P
      → W
      → Try (GovernedActionResult P V) × W
  governed s st v rec w = (
    ok (record {
      submission = s;
      human_resolution = st.resolution;
      execution_record = rec;
      value = v;
    }),
    w,
  )

  pub report_blocked : SubmissionResult P → Standing P → W → Try (GovernedActionResult P V) × W
  report_blocked s st w =
      let (r, w') = o.report_execution (blocked_record s st w) w in
      continue r (governed s st none) w'

  pub summarized : V → Try GovernedActionSummary
  summarized v = elim o.summarize_result [
    | some summarize ↦ summarize v
    | none ↦ ok (record {
      status = some "succeeded";
      result_summary = some (o.summary_text v);
      output_reference = none;
    })
  ]

  report_success :
      SubmissionResult P
      → Standing P
      → V
      → GovernedActionSummary
      → W
      → Try (GovernedActionResult P V) × W
  report_success s st v summary w =
      let (r, w') = o.report_execution (succeeded_record s st summary w) w in
      continue r (governed s st (some v)) w'

  -- The body of the `try`.
  pub attempt : SubmissionResult P → Standing P → W → Try (GovernedActionResult P V) × W
  attempt s st w =
      let (r, w') = o.execute st.effective_payload w in
      continue r (λ v w1. continue (summarized v) (report_success s st v) w1) w'

  -- The `catch`: the failure is reported, and the error of the body is thrown again.
  pub caught :
      SubmissionResult P
      → Standing P
      → Try (GovernedActionResult P V) × W
      → Try (GovernedActionResult P V) × W
  caught s st (ok result, w) = (ok result, w)
  caught s st (raised e, w) =
      let (r, w') = o.report_execution (failed_record s st e w) w in
      continue r (λ rec w1. (raised e, w1)) w'

  pub run : SubmissionResult P → Standing P → W → Try (GovernedActionResult P V) × W
  run s st w = if st.allow_execution then caught s st (attempt s st w) else report_blocked s st w

  pub awaited : SubmissionResult P → W → Try (GovernedActionResult P V) × W
  awaited s w =
      if needs_wait s
      then (let (r, w') = o.wait_for_human_resolution s.submission_id w in
          continue r (λ resolution w1. run s (resolved s resolution) w1) w')
      else run s (standing_of s) w

  pub execute_governed_action : W → Try (GovernedActionResult P V) × W
  execute_governed_action w = let (r, w') = o.submit_submission w in continue r awaited w'
