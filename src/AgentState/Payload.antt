-- ===== src/AgentState/Payload.antt =====
-- src/agent-state/payload.ts: the state that a caller or a header gives, brought into normal form or
-- refused.
pub mod Fields
pub mod Normal
use Prim.Native.String
use coreax.Prelude.{
  String, Bool, true, false, not, ◌||◌, ◌&&◌, Option, none, some, List, [], ◌∷◌, ◌==◌,
  if◌then◌else◌, is_empty, map_get, map_set, get_or,
}
use coreax.Value.{
  Value, undefined, null, bool, num, str, array, object, Elements, no_elements, element, Members,
  no_members, member, lookup, get,
}
use coreax.AgentState.{
  Checked, valid, failed, and_then, AgentStateVariables, AgentStatePayload, normalize_node_id,
  normalize_run_id, normalize_scope,
}

-- `hasOwn(obj, key)`
pub has_own : String → Members → Bool
has_own key no_members = false
has_own key (member k v fs) = k == key || has_own key fs

unfoldable pub is_finite : String → Bool
is_finite n = not (n == "NaN" || n == "Infinity" || n == "-Infinity")

abbrev pub with_member : String → Option Value → Members → Members
with_member k none fs = fs
with_member k (some v) fs = member k v fs

-- `JSON.parse(JSON.stringify(v))`, none where there is no text: members without a value are left
-- out, elements without one and numbers without a text become null.
unfoldable mutual
  pub plain : Value → Option Value
  plain undefined = none
  plain null = some null
  plain (bool b) = some (bool b)
  plain (num n) = some (if is_finite n then num n else null)
  plain (str s) = some (str s)
  plain (array vs) = some (array (plain_elements vs))
  plain (object fs) = some (object (plain_members fs))

  pub plain_elements : Elements → Elements
  plain_elements no_elements = no_elements
  plain_elements (element v vs) = element (get_or (plain v) null) (plain_elements vs)

  pub plain_members : Members → Members
  plain_members no_members = no_members
  plain_members (member k v fs) = with_member k (plain v) (plain_members fs)

-- The fields that a state may have; one that it has not is left out.
abbrev pub text_value : Option String → Option Value
text_value none = none
text_value (some s) = some (str s)

pub scopes : AgentStateVariables → Members
scopes [] = no_members
scopes ((scope, fields) ∷ vs) = member scope (object fields) (scopes vs)

abbrev pub variables_value : Option AgentStateVariables → Option Value
variables_value none = none
variables_value (some vs) = some (object (scopes vs))

abbrev pub metadata_value : Option Members → Option Value
metadata_value none = none
metadata_value (some ms) = some (object ms)

-- A normal state as an object.
unfoldable pub payload_members : AgentStatePayload → Members
payload_members p = member "nodeId" (str p.node_id) (
    with_member "runId" (text_value p.run_id) (
      with_member "parentRef" (text_value p.parent_ref) (
        with_member "variables" (variables_value p.variables)
          (with_member "metadata" (metadata_value p.metadata) no_members))))

-- `runId`, or `ref` in its place.
run_field : Members → Value
run_field fs = if has_own "runId" fs then lookup "runId" fs else lookup "ref" fs

run_of : Value → Checked (Option String)
run_of undefined = valid none
run_of null =
    failed "Agent runId cannot be null or undefined. Omit the field entirely if it is not set."
run_of (str s) = and_then (normalize_run_id s) (λ r. valid (some r))
run_of _ = failed "Agent runId must be a string."

parent_of : Value → Checked (Option String)
parent_of undefined =
    failed "Agent parentRef cannot be null or undefined. Omit the field entirely if it is not set."
parent_of null =
    failed "Agent parentRef cannot be null or undefined. Omit the field entirely if it is not set."
parent_of (str s) = and_then (normalize_run_id s) (λ r. valid (some r))
parent_of _ = failed "Agent parentRef must be a string."

metadata_of : Value → Checked (Option Members)
metadata_of undefined =
    failed "Agent metadata cannot be null or undefined. Omit the field entirely if it is not set."
metadata_of null =
    failed "Agent metadata cannot be null or undefined. Omit the field entirely if it is not set."
metadata_of (object fs) = valid (some (plain_members fs))
metadata_of _ = failed "Agent metadata must be a plain JSON-serializable object."

-- A field that is left out is no error.
pub if_own : {A : Type 0} → String → Members → (Value → Checked (Option A)) → Checked (Option A)
if_own key fs f = if has_own key fs then f (lookup key fs) else valid none

scope_variables : (scope_key : String) → Value → Checked Members
scope_variables scope_key (object fs) = valid (plain_members fs)
scope_variables scope_key _ = failed (
    String.◌++◌ "Agent state variables for scope \""
      (String.◌++◌ scope_key "\" must be a plain object."))

none_if_empty : AgentStateVariables → Option AgentStateVariables
none_if_empty vs = if is_empty vs then none else some vs

module _ (to_lower_case to_upper_case : String → String) where
  pub collect_scopes : AgentStateVariables → Members → Checked AgentStateVariables
  collect_scopes variables no_members = valid variables
  collect_scopes variables (member key vars fs) =
      and_then (normalize_scope to_upper_case key) (λ scope.
        and_then (scope_variables key vars)
          (λ fields. collect_scopes (map_set scope fields variables) fs))

  variables_of : Value → Checked (Option AgentStateVariables)
  variables_of (object fs) = and_then (collect_scopes [] fs) (λ vs. valid (none_if_empty vs))
  variables_of _ = failed "Agent variables must be provided as a plain object when present."

  pub normalize_members : Members → Checked AgentStatePayload
  normalize_members fs = and_then (normalize_node_id to_lower_case (lookup "nodeId" fs)) (λ node_id.
      and_then (run_of (run_field fs)) (λ run_id.
        and_then (if_own "parentRef" fs parent_of) (λ parent_ref.
          and_then (if_own "variables" fs variables_of) (λ variables.
            and_then (if_own "metadata" fs metadata_of) (λ metadata. valid (record {
              node_id = node_id;
              run_id = run_id;
              parent_ref = parent_ref;
              variables = variables;
              metadata = metadata;
            }))))))

  -- An array, a text or a number has no node ID.
  pub normalize_agent_state_payload : Value → Checked AgentStatePayload
  normalize_agent_state_payload (object fs) = normalize_members fs
  normalize_agent_state_payload undefined = failed "Agent state payload is required."
  normalize_agent_state_payload null = failed "Agent state payload is required."
  normalize_agent_state_payload (bool false) = failed "Agent state payload is required."
  normalize_agent_state_payload (str s) =
      if s == "" then failed "Agent state payload is required." else failed "Node ID is required."
  normalize_agent_state_payload (num n) =
      if n == "0" || n == "NaN"
      then failed "Agent state payload is required."
      else failed "Node ID is required."
  normalize_agent_state_payload _ = failed "Node ID is required."

-- `ensureRunId`
pub ensure_run_id : AgentStatePayload → Checked String
ensure_run_id p = elim p.run_id [
  | none ↦ failed "Agent runId is required and fallbacks are not permitted."
  | some r ↦
      if r == ""
      then failed "Agent runId is required and fallbacks are not permitted."
      else normalize_run_id r
]

-- `{ ...fs, [key]: v }`, where a key that is there keeps its place.
set_member : String → Value → Members → Members
set_member key v no_members = member key v no_members
set_member key v (member k u fs) =
    let rest = set_member key v fs in if k == key then member k v fs else member k u rest

-- `{ ...fs, ...additions }`
merge_members : Members → Members → Members
merge_members fs no_members = fs
merge_members fs (member k v additions) = merge_members (set_member k v fs) additions

module _ (to_upper_case : String → String) where
  pub merge_agent_variables : AgentStateVariables → String → Value → Checked AgentStateVariables
  merge_agent_variables base scope (object additions) =
      and_then (normalize_scope to_upper_case scope) (λ scoped. valid (
        map_set scoped
          (merge_members (get_or (map_get scoped base) no_members) (plain_members additions)) base))
  merge_agent_variables base scope _ = failed "Agent variable additions must be a plain object."
