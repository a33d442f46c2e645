-- ===== src/DecisionFlow.antt =====
-- src/middleware/decisionFlow.ts: the approval that comes with a call of a tool, and the decisions that
-- are asked for while the call is handled, each of which is kept. Verifier and runtime are callbacks
-- on a world.
mod Keys
mod Texts
pub mod Kept
mod Tests
use coreax.Prelude.{
  String, Bool, false, Option, none, some, List, [], ◌∷◌, ◌==◌, elem, is_empty, or_else,
  if◌then◌else◌, map_get, map_set,
}
use Prim.Native.String
use coreax.Text.{trim}
use coreax.Value.{
  Value, undefined, null, str, array, object, no_elements, element, Members, no_members, member,
  lookup, get, trimmed,
}
use coreax.Governance.{Try, ok, raised}
use coreax.Runtime.{Mode, Strategy, deny_on_match, deny_on_any, DecisionInput, DecisionOutput}
use coreax.Runtime.Local.{enforcement_of}
use coreax.Runtime.Mapper.{map_runtime_decision_request}

infixr 20 ◌++◌
abbrev ◌++◌ : String → String → String
a ++ b = String.◌++◌ a b

-- A header's first text, without the space around it.
header_value : Value → Option String
header_value (array (element v vs)) = trimmed v
header_value (array no_elements) = none
header_value v = trimmed v

-- `headers[name] ?? headers[lowered]`
abbrev or_lowered : Value → Value → Value
or_lowered undefined lowered = lowered
or_lowered null lowered = lowered
or_lowered v lowered = v

pub read_header : (name lowered : String) → Members → Option String
read_header name lowered headers =
    header_value (or_lowered (lookup name headers) (lookup lowered headers))

abbrev first_text : Value → Value → Value
first_text (str s) v = str s
first_text _ v = v

-- The first argument of the three names that is a text, even an empty one.
arg_token : Value → Option String
arg_token args = trimmed (
    first_text (get "__sec0_approval_token" args)
      (first_text (get "approval_token" args) (get "approvalToken" args)))

pub extract_approval_token : (headers : Members) (args : Value) → Option String
extract_approval_token headers args =
    or_else
      (or_else (read_header "x-sec0-approval-token" "x-sec0-approval-token" headers)
        (read_header "x-sec0-approval" "x-sec0-approval" headers))
      (arg_token args)

-- `delete obj[name]` for each of these names.
pub without : List String → Members → Members
without names no_members = no_members
without names (member k v fs) =
    let rest = without names fs in if elem k names then rest else member k v rest

scrub_args : Value → Value
scrub_args (object fs) =
    object (without ("__sec0_approval_token" ∷ "approval_token" ∷ "approvalToken" ∷ []) fs)
scrub_args v = v

pub scrub_approval_token : (headers : Members) (args : Value) → Members × Value
scrub_approval_token headers args = (
  without
      ("x-sec0-approval-token" ∷ "X-Sec0-Approval-Token" ∷ "x-sec0-approval" ∷ "X-Sec0-Approval"
        ∷ [])
      headers,
  scrub_args args,
)

pub record ApprovalResolution : Type 0 where
  pub valid : Bool
  pub approval : Value

-- What the flow knows of the call.
pub record DecisionFlowContext : Type 0 where
  pub tenant : Option String
  pub server : String
  pub tool : String
  pub tool_ref : String
  pub node_id : Option String
  pub agent_run_id : Option String

pub record DecisionFlow : Type 0 where
  pub approval_token : Option String
  pub approval_checked : Option ApprovalResolution
  pub runtime_decisions : List (String × Bool)

scrubbed : DecisionFlow → Option String → Members → Value → DecisionFlow × Members × Value
scrubbed flow none headers args = (flow, headers, args)
scrubbed flow (some token) headers args =
    let (headers', args') = scrub_approval_token headers args in (flow, headers', args')

-- The flow, and the headers and arguments without a token that was found.
pub create_decision_flow : (headers : Members) (args : Value) → DecisionFlow × Members × Value
create_decision_flow headers args =
    let token = extract_approval_token headers args in
    let flow : DecisionFlow = record {
      approval_token = token;
      approval_checked = none;
      runtime_decisions = [];
    } in
    scrubbed flow token headers args

-- A question to the runtime.
pub record Question : Type 0 where
  pub reasons : List String
  pub request_id_suffix : Option String
  pub strategy : Strategy
  pub force_deny : Bool
  pub deny_on : List String

-- `reasons.map((r) => r.trim()).filter(Boolean)`
pub normalized_reasons : List String → List String
normalized_reasons [] = []
normalized_reasons (r ∷ rs) =
    let rest = normalized_reasons rs in if trim r == "" then rest else trim r ∷ rest

join_commas : List String → String
join_commas [] = ""
join_commas (x ∷ []) = x
join_commas (x ∷ y ∷ xs) = x ++ "," ++ join_commas (y ∷ xs)

strategy_name : Strategy → String
strategy_name deny_on_match = "deny_on_match"
strategy_name deny_on_any = "deny_on_any"

pub cache_key : Question → String
cache_key q =
    strategy_name q.strategy
    ++ "|"
    ++ (if q.force_deny then "1" else "0")
    ++ "|"
    ++ join_commas q.deny_on
    ++ "|"
    ++ join_commas (normalized_reasons q.reasons)

filled_suffix : Option String → String
filled_suffix none = "runtime"
filled_suffix (some s) = if s == "" then "runtime" else s

pub request_of : DecisionFlowContext → Question → DecisionInput
request_of c q = map_runtime_decision_request (record {
  execution_layer = "middleware";
  tenant = c.tenant;
  server = c.server;
  tool = c.tool;
  node_id = c.node_id;
  run_id = c.agent_run_id;
  mode = Mode.enforce;
  strategy = q.strategy;
  deny_on = q.deny_on;
  force_deny = q.force_deny;
  reasons = normalized_reasons q.reasons;
  risk_tags = [];
  attributes = none;
  request_id = some (c.tool_ref ++ ":" ++ filled_suffix q.request_id_suffix);
  protocol_version = none;
})

pub record DecisionFlowCallbacks (W : Type 0) : Type 0 where
  pub verify : (token : String) → W → Try (Option ApprovalResolution) × W
  pub evaluate : DecisionInput → W → Try DecisionOutput × W

module _ {W : Type 0} (cb : DecisionFlowCallbacks W) where
  verified :
      DecisionFlow
      → Try (Option ApprovalResolution) × W
      → Option ApprovalResolution × DecisionFlow × W
  verified f (ok output, w) = (output, record f { approval_checked = output }, w)
  verified f (raised e, w) = (none, f, w)

  -- A failure of the verifier, and an answer without a resolution, are not kept.
  pub verify_approval_if_any : DecisionFlow → W → Option ApprovalResolution × DecisionFlow × W
  verify_approval_if_any f w = elim f.approval_token [
    | none ↦ (none, f, w)
    | some token ↦ elim f.approval_checked [
      | some r ↦ (some r, f, w)
      | none ↦ verified f (cb.verify token w)
    ]
  ]

  remembered : Question → DecisionFlow → Try DecisionOutput × W → Try Bool × DecisionFlow × W
  remembered q f (raised e, w) = (raised e, f, w)
  remembered q f (ok output, w) =
      let deny = (enforcement_of output).should_deny in
      (ok deny, record f { runtime_decisions = map_set (cache_key q) deny f.runtime_decisions }, w)

  pub should_runtime_deny :
      DecisionFlowContext → Question → DecisionFlow → W → Try Bool × DecisionFlow × W
  should_runtime_deny c q f w =
      if is_empty (normalized_reasons q.reasons)
      then (ok false, f, w)
      else elim (map_get (cache_key q) f.runtime_decisions) [
        | some deny ↦ (ok deny, f, w)
        | none ↦ remembered q f (cb.evaluate (request_of c q) w)
      ]

-- `normalizePolicyReasonToken`
pub normalize_policy_reason_token : String → String
normalize_policy_reason_token value =
    if trim value == "idempotency_missing"
    then "missing_idempotency_for_side_effect"
    else trim value

pub policy_denies_reason : (deny_on : List String) (reason : String) → Bool
policy_denies_reason deny_on reason =
    if reason == "" then false else elem (normalize_policy_reason_token reason) deny_on
