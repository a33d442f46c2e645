-- ===== src/AgentState/Codec.antt =====
-- src/agent-state/codec.ts: the headers that carry a state, and the state that headers carry. The text
-- of a JSON value, its reading, and base64 are arguments.
pub mod RoundTrip
use coreax.Prelude.{
  String, Bool, true, false, not, Option, none, some, List, [], ◌∷◌, ◌==◌, if◌then◌else◌, or_else,
}
use coreax.Text.{lower_is}
use coreax.Value.{
  Value, undefined, null, num, str, array, object, no_elements, element, Members, no_members,
  member, text,
}
use coreax.AgentState.{
  Checked, valid, failed, and_then, AgentStateVariables, AgentStatePayload, normalize_node_id,
  normalize_run_id,
}
use coreax.AgentState.Encoding.{encode_base64_url, decode_base64_url}
use coreax.AgentState.Payload.{
  with_member, text_value, payload_members, normalize_agent_state_payload,
}

value_text : Value → Option String
value_text undefined = none
value_text null = none
value_text v = some (text v)

header_text : Value → Option String
header_text (array no_elements) = none
header_text (array (element v vs)) = value_text v
header_text v = value_text v

-- The first header of this name, whatever the case of its letters.
get_header : String → Members → Option String
get_header name no_members = none
get_header name (member k v fs) = if lower_is k name then header_text v else get_header name fs

-- The identifier in the state and the one in the header, where the state has one.
pub check_match :
    (missing mismatch : String) → Option String → Option String → Checked (Option String)
check_match missing mismatch none header = valid header
check_match missing mismatch (some decoded) none =
    and_then (normalize_run_id decoded) (λ d. failed missing)
check_match missing mismatch (some decoded) (some header) =
    and_then (normalize_run_id decoded)
      (λ d. if d == header then valid (some header) else failed mismatch)

normalize_header : Option String → Checked (Option String)
normalize_header none = valid none
normalize_header (some s) = and_then (normalize_run_id s) (λ r. valid (some r))

run_id_of : Option AgentStatePayload → Option String
run_id_of none = none
run_id_of (some p) = p.run_id

parent_ref_of : Option AgentStatePayload → Option String
parent_ref_of none = none
parent_ref_of (some p) = p.parent_ref

variables_of : Option AgentStatePayload → Option AgentStateVariables
variables_of none = none
variables_of (some p) = p.variables

metadata_of : Option AgentStatePayload → Option Members
metadata_of none = none
metadata_of (some p) = p.metadata

node_matches : Option AgentStatePayload → String → Checked String
node_matches none node_id = valid node_id
node_matches (some p) node_id =
    if p.node_id == node_id
    then valid node_id
    else failed "Node ID header mismatch with encoded state."

required_node_id : Option String → Checked String
required_node_id none = failed "Missing required header \"x-node-id\"."
required_node_id (some s) =
    if s == "" then failed "Missing required header \"x-node-id\"." else valid s

module _ (to_lower_case to_upper_case : String → String) (stringify : Value → String)
    (parse : String → Option Value) (to_base64 from_base64 : String → String) where
  state_header : AgentStatePayload → String
  state_header p =
      encode_base64_url to_base64 from_base64
        (stringify (object (member "version" (num "1") (payload_members p))))

  pub encode_agent_state_headers : Value → Checked Members
  encode_agent_state_headers payload =
      and_then (normalize_agent_state_payload to_lower_case to_upper_case payload) (λ p. valid (
        member "x-node-id" (str p.node_id) (
          with_member "x-agent-ref" (text_value p.run_id) (
            with_member "x-agent-parent-ref" (text_value p.parent_ref)
              (member "x-agent-state" (str (state_header p)) no_members)))))

  parsed_state : Option Value → Checked AgentStatePayload
  parsed_state none = failed "Failed to parse agent state header JSON."
  parsed_state (some (object fs)) =
      normalize_agent_state_payload to_lower_case to_upper_case (object fs)
  parsed_state (some (array vs)) =
      normalize_agent_state_payload to_lower_case to_upper_case (array vs)
  parsed_state (some v) = failed "Agent state header must contain a JSON object."

  pub decode_agent_state_header : Option String → Checked AgentStatePayload
  decode_agent_state_header none = failed "Missing required header \"x-agent-state\"."
  decode_agent_state_header (some value) =
      if value == ""
      then failed "Missing required header \"x-agent-state\"."
      else parsed_state (parse (decode_base64_url to_base64 from_base64 value))

  -- The state of the header; one that is missing or empty is not looked at.
  decoded_state : Option String → Checked (Option AgentStatePayload)
  decoded_state none = valid none
  decoded_state (some value) =
      if value == ""
      then valid none
      else and_then (decode_agent_state_header (some value)) (λ p. valid (some p))

  pub extract_agent_state_from_headers : Members → Checked AgentStatePayload
  extract_agent_state_from_headers headers =
      and_then (required_node_id (get_header "x-node-id" headers)) (λ node_header.
        and_then (normalize_node_id to_lower_case (str node_header)) (λ node_id.
          and_then (decoded_state (get_header "x-agent-state" headers)) (λ decoded.
            and_then (node_matches decoded node_id) (λ same.
              and_then (normalize_header (get_header "x-agent-ref" headers)) (λ ref.
                and_then
                  (check_match
                    "Missing required header \"x-agent-ref\" while encoded state includes a runId."
                    "Agent runId header mismatch with encoded state." (run_id_of decoded) ref)
                  (λ run_id.
                    and_then (normalize_header (get_header "x-agent-parent-ref" headers)) (λ parent.
                      and_then
                        (check_match
                          "Missing required header \"x-agent-parent-ref\" while encoded state includes a parent ref."
                          "Agent parent ref header mismatch with encoded state."
                          (parent_ref_of decoded) parent)
                        (λ parent_ref. normalize_agent_state_payload to_lower_case to_upper_case (
                          object (
                            payload_members (record {
                              node_id = node_id;
                              run_id = run_id;
                              parent_ref = parent_ref;
                              variables = variables_of decoded;
                              metadata = metadata_of decoded;
                            })))))))))))
