-- ===== src/Runtime/Mapper.antt =====
-- src/runtime-adapter/mappers.ts: the request that the middleware makes of what it knows of a call.
use coreax.Prelude.{String, Bool, Option, List, get_or}
use coreax.Value.{Value, undefined, bool, str, array, object, Members, no_members, trimmed}
use coreax.Runtime.{Mode, Strategy, DecisionInput, protocol}
use coreax.Runtime.Normalize.{
  normalize_string_array, string_items, opt_str, mode_text, strategy_text,
}

pub record RuntimeMapperInput : Type 0 where
  pub execution_layer : String
  pub tenant : Option String
  pub server : String
  pub tool : String
  pub node_id : Option String
  pub run_id : Option String
  pub mode : Mode
  pub strategy : Strategy
  pub deny_on : List String
  pub force_deny : Bool
  pub reasons : List String
  pub risk_tags : List String
  pub attributes : Option Members
  pub request_id : Option String
  pub protocol_version : Option String

-- `typeof s === "string" && s.trim() ? s.trim() : undefined`
abbrev trimmed_or_undefined : Option String → Value
trimmed_or_undefined s = opt_str (trimmed (opt_str s))

abbrev string_array : List String → Value
string_array ss = array (string_items (normalize_string_array (array (string_items ss))))

unfoldable pub map_runtime_decision_request : RuntimeMapperInput → DecisionInput
map_runtime_decision_request i = record {
  protocol_version = str (get_or (trimmed (opt_str i.protocol_version)) protocol);
  request_id = trimmed_or_undefined i.request_id;
  context = record {
    execution_layer = str i.execution_layer;
    tenant = trimmed_or_undefined i.tenant;
    server = str i.server;
    tool = str i.tool;
    node_id = trimmed_or_undefined i.node_id;
    run_id = trimmed_or_undefined i.run_id;
    metadata = undefined;
  };
  enforcement = record {
    mode = str (mode_text i.mode);
    strategy = str (strategy_text i.strategy);
    deny_on = string_array i.deny_on;
    force_deny = bool i.force_deny;
  };
  input = record {
    reasons = string_array i.reasons;
    risk_tags = string_array i.risk_tags;
    attributes = object (get_or i.attributes no_members);
  };
}
