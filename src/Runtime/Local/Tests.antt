-- ===== src/Runtime/Local/Tests.antt =====
-- Decisions of src/runtime-adapter/localAdapter.ts at given inputs.
use coreax.Prelude.{arith, String, true, false, none, some, List, [], ◌∷◌, ◌≡◌, refl, elem}
use coreax.Text.{trim}
use coreax.Value.{
  Value, undefined, str, array, no_elements, element, no_members, text, trimmed, is_text, is_true,
}
use coreax.Runtime.{Action, Strategy, enforce, deny_on_match, DecisionInput, protocol}
use coreax.Runtime.Normalize.{normalize_string_array, NormalInput, normalize}
use coreax.Runtime.Local.{pick_deny_reason, denies, decide, evaluate, enforcement_of}
use coreax.Runtime.Local.Denials.{decide-unlisted, decide-same_sets}

local_adapter : Unit {0}
unfolding evaluate decide denies pick_deny_reason normalize normalize_string_array trimmed is_text
    is_true text trim
local_adapter = tt

abbrev ask : Value → Value → Value → DecisionInput
ask mode deny_on reasons = record {
  protocol_version = undefined;
  request_id = undefined;
  context = record {
    execution_layer = undefined;
    tenant = undefined;
    server = str "srv";
    tool = str "write@1";
    node_id = undefined;
    run_id = undefined;
    metadata = undefined;
  };
  enforcement = record {
    mode = mode;
    strategy = undefined;
    deny_on = deny_on;
    force_deny = undefined;
  };
  input = record { reasons = reasons; risk_tags = undefined; attributes = undefined };
}

abbrev listed : DecisionInput
listed =
    ask (str "enforce") (array (element (str "b") no_elements))
      (array (element (str "a") (element (str "b") no_elements)))

decisions :
    ((evaluate listed).decision ≡ Action.deny)
    × ((evaluate listed).reason ≡ some "b")
    × ((evaluate (ask (str "observe") undefined (array (element (str "a") no_elements)))).decision
        ≡ Action.allow)
    × ((evaluate (ask (str "enforce") undefined (array no_elements))).decision ≡ Action.allow)
unfolding local_adapter
decisions = (refl, refl, refl, refl)

abbrev facts : Strategy → (deny_on reasons : List String) → NormalInput
facts strategy deny_on reasons = record {
  protocol_version = protocol;
  request_id = none;
  context = record {
    execution_layer = str "middleware";
    server = "srv";
    tool = "write@1";
    tenant = none;
    node_id = none;
    run_id = none;
    metadata = none;
  };
  mode = enforce;
  strategy = strategy;
  deny_on = deny_on;
  force_deny = false;
  reasons = reasons;
  risk_tags = [];
  attributes = no_members;
}

abbrev one : NormalInput
one = facts deny_on_match ("b" ∷ []) ("a" ∷ "b" ∷ [])

decide-unlisted_example :
    (decide (facts deny_on_match ("c" ∷ []) ("a" ∷ "b" ∷ []))).decision ≡ Action.allow
decide-unlisted_example =
    decide-unlisted (facts deny_on_match ("c" ∷ []) ("a" ∷ "b" ∷ [])) refl refl refl refl

swapped : (r : String) → elem r ("a" ∷ "b" ∷ []) ≡ elem r ("b" ∷ "a" ∷ "b" ∷ [])
swapped r = ground arith

decide-same_sets_example :
    (decide one).decision
    ≡ (decide (facts deny_on_match ("b" ∷ []) ("b" ∷ "a" ∷ "b" ∷ []))).decision
decide-same_sets_example =
    decide-same_sets one (facts deny_on_match ("b" ∷ []) ("b" ∷ "a" ∷ "b" ∷ [])) refl refl refl
      swapped (λ r. refl)

blocks : (enforcement_of (evaluate listed)).should_deny ≡ true
unfolding enforcement_of local_adapter
blocks = refl
