-- ===== src/Runtime/Normalize.antt =====
-- src/runtime-adapter/shared.ts: a decision request in normal form.
pub mod Clean
pub mod Idempotent
mod Tests
use coreax.Prelude.{
  String, Bool, ◌||◌, Option, none, some, List, [], ◌∷◌, ◌++◌, ◌==◌, get_or, elem, if◌then◌else◌,
}
use coreax.Text.{trim}
use coreax.Value.{
  Value, undefined, null, bool, str, array, object, Elements, no_elements, element, Members,
  no_members, elements, text, trimmed, is_text, is_true,
}
use coreax.Runtime.{
  Mode, observe, enforce, Strategy, deny_on_match, deny_on_any, Context, Enforcement, Facts,
  DecisionInput,
}

-- The loop of `normalizeStringArray`; `seen` holds what `out` holds.
push_new : List String → String → List String
push_new out v = if v == "" || elem v out then out else out ++ v ∷ []

collect : List String → List Value → List String
collect out [] = out
collect out (v ∷ vs) = collect (push_new out (trim (text v))) vs

unfoldable pub normalize_string_array : Value → List String
unfolding collect push_new
normalize_string_array (array vs) = collect [] (elements vs)
normalize_string_array _ = []

pub record NormalContext : Type 0 where
  pub execution_layer : Value
  pub server : String
  pub tool : String
  pub tenant : Option String
  pub node_id : Option String
  pub run_id : Option String
  pub metadata : Option Members

pub record NormalInput : Type 0 where
  pub protocol_version : String
  pub request_id : Option String
  pub context : NormalContext
  pub mode : Mode
  pub strategy : Strategy
  pub deny_on : List String
  pub force_deny : Bool
  pub reasons : List String
  pub risk_tags : List String
  pub attributes : Members

-- `v ?? d`
abbrev default : Value → Value → Value
default d undefined = d
default d null = d
default d v = v

-- a plain object; an array and null are none
abbrev plain_object : Value → Option Members
plain_object (object fs) = some fs
plain_object _ = none

unfoldable pub normalize : String → DecisionInput → NormalInput
normalize fallback i = record {
  protocol_version = get_or (trimmed i.protocol_version) fallback;
  request_id = trimmed i.request_id;
  context = record {
    execution_layer = default (str "middleware") i.context.execution_layer;
    server = text (default (str "unknown") i.context.server);
    tool = text (default (str "unknown") i.context.tool);
    tenant = trimmed i.context.tenant;
    node_id = trimmed i.context.node_id;
    run_id = trimmed i.context.run_id;
    metadata = plain_object i.context.metadata;
  };
  mode = if is_text "enforce" i.enforcement.mode then enforce else observe;
  strategy = if is_text "deny_on_any" i.enforcement.strategy then deny_on_any else deny_on_match;
  deny_on = normalize_string_array i.enforcement.deny_on;
  force_deny = is_true i.enforcement.force_deny;
  reasons = normalize_string_array i.input.reasons;
  risk_tags = normalize_string_array i.input.risk_tags;
  attributes = get_or (plain_object i.input.attributes) no_members;
}

-- The normal form handed on as an input, as `RemoteRuntimeAdapter` hands it to its local adapter.
abbrev pub string_items : List String → Elements
string_items [] = no_elements
string_items (s ∷ ss) = element (str s) (string_items ss)

abbrev pub opt_str : Option String → Value
opt_str none = undefined
opt_str (some s) = str s

abbrev opt_obj : Option Members → Value
opt_obj none = undefined
opt_obj (some fs) = object fs

abbrev pub mode_text : Mode → String
mode_text enforce = "enforce"
mode_text observe = "observe"

abbrev pub strategy_text : Strategy → String
strategy_text deny_on_any = "deny_on_any"
strategy_text deny_on_match = "deny_on_match"

unfoldable pub as_input : NormalInput → DecisionInput
as_input n = record {
  protocol_version = str n.protocol_version;
  request_id = opt_str n.request_id;
  context = record {
    execution_layer = n.context.execution_layer;
    server = str n.context.server;
    tool = str n.context.tool;
    tenant = opt_str n.context.tenant;
    node_id = opt_str n.context.node_id;
    run_id = opt_str n.context.run_id;
    metadata = opt_obj n.context.metadata;
  };
  enforcement = record {
    mode = str (mode_text n.mode);
    strategy = str (strategy_text n.strategy);
    deny_on = array (string_items n.deny_on);
    force_deny = bool n.force_deny;
  };
  input = record {
    reasons = array (string_items n.reasons);
    risk_tags = array (string_items n.risk_tags);
    attributes = object n.attributes;
  };
}
