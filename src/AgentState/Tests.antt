-- ===== src/AgentState/Tests.antt =====
-- Identifiers, an encoding and a state at concrete texts, and the theorem at them.
use coreax.Prelude.{String, none, some, Option, ◌==◌, if◌then◌else◌, ◌≡◌, refl}
use coreax.Text.{trim}
use coreax.Value.{Value, object, str, num, Members, no_members, member, text}
use coreax.AgentState.{
  valid, and_then, AgentStatePayload, normalize_node_id, normalize_run_id, filled_or_fail,
  replace_runs, squeeze, strip_start, strip_end, place_dash, take, is_dash, is_digit, is_small,
  is_capital, is_node_char, is_run_char,
}
use coreax.AgentState.Encoding.{
  append, size, equals, pad_length, strip_equals, place_equals, swap_sign, swap_char, is_body,
  encode_base64_url,
}
use coreax.AgentState.Payload.{payload_members, plain_members, is_finite}
use coreax.AgentState.Codec.{encode_agent_state_headers, extract_agent_state_from_headers}
use coreax.AgentState.Codec.RoundTrip.{
  JsonReads, Base64Reads, extract_agent_state_from_headers-encode_agent_state_headers,
}
use coreax.AgentState.Payload.Normal.{IsNormal}

abbrev same : String → String
same s = s

node_computes : normalize_node_id same (str " my  node--1/ ") ≡ valid "my-node-1"
unfolding normalize_node_id filled_or_fail replace_runs squeeze strip_start strip_end place_dash
    take is_dash is_digit is_small is_node_char trim
node_computes = refl

run_computes : normalize_run_id " run 7!? " ≡ valid "run_7_"
unfolding normalize_run_id filled_or_fail replace_runs take is_dash is_digit is_small is_capital
    is_node_char is_run_char trim
run_computes = refl

-- A cut can leave a dash at the end, which the next service takes away.
abbrev long_name : String
long_name = "aaaaaaaaaabbbbbbbbbbccccccccccddddddddddeeeeeeeeeeffffffffffgggggggggghhhhhhhhh x"

cut_computes :
    and_then (normalize_node_id same (str long_name)) (λ n. normalize_node_id same (str n))
    ≡ valid "aaaaaaaaaabbbbbbbbbbccccccccccddddddddddeeeeeeeeeeffffffffffgggggggggghhhhhhhhh"
unfolding normalize_node_id filled_or_fail replace_runs squeeze strip_start strip_end place_dash
    take is_dash is_digit is_small is_node_char trim
cut_computes = refl

abbrev state : AgentStatePayload
state = record {
  node_id = "n1";
  run_id = some "r1";
  parent_ref = none;
  variables = none;
  metadata = none;
}

abbrev object_read : Value
object_read =
    object (
      member "version" (num "1")
        (member "nodeId" (str "n1") (member "runId" (str "r1") no_members)))

-- Stand-ins for JSON and base64 that write this state and read it again.
members_text : Members → String
members_text no_members = "}"
members_text (member k v fs) =
    append k (append ":" (append (text v) (append "," (members_text fs))))

abbrev written : String
written = "{version:1,nodeId:n1,runId:r1,}"

stringify : Value → String
stringify (object fs) = append "{" (members_text fs)
stringify v = text v

parse : String → Option Value
parse s = if s == written then some object_read else none

to_base64 : String → String
to_base64 s = append s (equals (pad_length (size s)))

state-IsNormal : IsNormal same same state
unfolding normalize_node_id normalize_run_id filled_or_fail replace_runs squeeze strip_start
    strip_end place_dash take is_dash is_digit is_small is_capital is_node_char is_run_char trim
state-IsNormal = (refl, refl, refl, tt, tt, tt)

state-JsonReads : JsonReads same same stringify parse to_base64 strip_equals state
unfolding parse stringify members_text append text payload_members plain_members is_finite
state-JsonReads = refl

state-Base64Reads : Base64Reads same same stringify parse to_base64 strip_equals state
unfolding stringify members_text append text payload_members to_base64 equals pad_length size
    strip_equals place_equals is_body swap_sign swap_char encode_base64_url
state-Base64Reads = ((written, refl, refl), refl, refl)

extract_agent_state_from_headers-encode_agent_state_headers_example :
    and_then
      (encode_agent_state_headers same same stringify parse to_base64 strip_equals
        (object (payload_members state)))
      (extract_agent_state_from_headers same same stringify parse to_base64 strip_equals)
    ≡ valid state
extract_agent_state_from_headers-encode_agent_state_headers_example =
    extract_agent_state_from_headers-encode_agent_state_headers same same stringify parse to_base64
      strip_equals state state-JsonReads state-Base64Reads state-IsNormal
