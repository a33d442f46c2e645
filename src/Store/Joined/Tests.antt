-- ===== src/Store/Joined/Tests.antt =====
-- The export of a small store, and the theorem at it.
use coreax.Prelude.{String, none, some, [], ◌∷◌, map, ◌≡◌}
use coreax.Governance.{approve, reject}
use coreax.Store.{FileGovernanceStore, GovernanceSubmission, GovernanceTarget, HumanResolution}
use coreax.Store.Latest.{somes}
use coreax.Store.Joined.{export_preference_examples, get_latest_resolution}
use coreax.Store.Joined.Exported.{example_or_none, export_preference_examples-latest}

abbrev same : String → String
same j = j

abbrev target_text : GovernanceTarget String → String
target_text t = t.details

abbrev digest : (tenant workflow kind action_type action_name : String) → String → String
digest tenant workflow kind action_type action_name payload = action_name

abbrev submission : String → GovernanceSubmission String
submission k = record {
  submission_id = k;
  tenant_id = "acme";
  workflow_id = "pay";
  run_id = "r";
  event_kind = "tool_call";
  target = record { action_type = "payment"; action_name = "send"; details = "{}" };
  payload = "{}";
  review_key = none;
  metadata = "{}";
  created_at = "1";
}

abbrev rejected_once : HumanResolution String
rejected_once = record {
  resolution_id = some "r";
  submission_id = "a";
  action = reject;
  reviewer = "eve";
  feedback = some "no";
  edited_payload = none;
  metadata = "{}";
  created_at = "4";
}

abbrev reviewed : FileGovernanceStore String
reviewed = record {
  submissions = submission "a" ∷ submission "b" ∷ [];
  decisions = [];
  clarifications = [];
  clarification_answers = [];
  resolutions = record rejected_once { action = approve } ∷ rejected_once ∷ [];
  executions = [];
  reflections = [];
  outcomes = [];
  improvements = [];
  promotions = [];
}

export_preference_examples-latest_example :
    export_preference_examples same target_text "{}" digest reviewed
    ≡ somes (
        map
          (λ r.
            example_or_none same target_text "{}" digest r
              (get_latest_resolution r.submission_id reviewed))
          reviewed.submissions)
export_preference_examples-latest_example =
    export_preference_examples-latest same target_text "{}" digest reviewed
