-- ===== src/Runtime/Normalize/Tests.antt =====
-- Requests of src/runtime-adapter/shared.ts in normal form, at given inputs.
use coreax.Prelude.{true, [], ◌∷◌, ◌≡◌, refl}
use coreax.Text.{trim}
use coreax.Value.{undefined, null, num, bool, str, array, Elements, no_elements, element, text}
use coreax.Runtime.{DecisionInput, protocol}
use coreax.Runtime.Normalize.{normalize_string_array, normalize, as_input}
use coreax.Runtime.Normalize.Idempotent.{normalize-as_input}

abbrev mixed : Elements
mixed =
    element (str " a ")
      (element null (element (num "7") (element (str "a") (element (bool true) no_elements))))

array_test : normalize_string_array (array mixed) ≡ "a" ∷ "7" ∷ "true" ∷ []
unfolding normalize_string_array trim text
array_test = refl

abbrev sample : DecisionInput
sample = record {
  protocol_version = str "  ";
  request_id = str " r1 ";
  context = record {
    execution_layer = undefined;
    tenant = str "acme";
    server = str "srv";
    tool = undefined;
    node_id = null;
    run_id = undefined;
    metadata = undefined;
  };
  enforcement = record {
    mode = str "enforce";
    strategy = undefined;
    deny_on = array (element (str "x") no_elements);
    force_deny = undefined;
  };
  input = record { reasons = array mixed; risk_tags = undefined; attributes = undefined };
}

protocol-trimmed : trim protocol ≡ protocol
unfolding trim
protocol-trimmed = refl

normalize-as_input_example :
    normalize "v2" (as_input (normalize protocol sample)) ≡ normalize protocol sample
normalize-as_input_example = normalize-as_input protocol "v2" sample protocol-trimmed refl
