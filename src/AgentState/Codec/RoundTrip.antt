-- ===== src/AgentState/Codec/RoundTrip.antt =====
-- src/agent-state/codec.ts: a state in normal form goes into headers and comes back.
use coreax.Prelude.{String, true, false, Option, none, some, ◌==◌, ◌≡◌, refl, ◌∙◌, eq_refl}
use coreax.Text.{lower_is}
use coreax.Value.{Value, num, str, object, Members, no_members, member, text}
use coreax.AgentState.{valid, and_then, AgentStatePayload}
use coreax.AgentState.Encoding.{encode_base64_url, IsBase64}
use coreax.AgentState.Encoding.RoundTrip.{decode_base64_url-encode_base64_url}
use coreax.AgentState.Payload.{plain_members, with_member, text_value, payload_members}
use coreax.AgentState.Payload.Normal.{
  IsNormal, IsNormalRef, normalize_agent_state_payload-payload,
  normalize_agent_state_payload-version,
}
use coreax.AgentState.Codec.{
  value_text, header_text, get_header, check_match, normalize_header, run_id_of, parent_ref_of,
  variables_of, metadata_of, node_matches, required_node_id, state_header,
  encode_agent_state_headers, parsed_state, decode_agent_state_header, decoded_state,
  extract_agent_state_from_headers,
}

get_header-other :
    (name k : String) (o : Option Value) (fs : Members)
    → lower_is k name ≡ false
    → get_header name (with_member k o fs) ≡ get_header name fs
unfolding get_header
get_header-other name k none fs d = refl
get_header-other name k (some v) fs d = rw d refl

get_header-own :
    (name : String) (o : Option String) (fs : Members)
    → lower_is name name ≡ true
    → get_header name fs ≡ none
    → get_header name (with_member name (text_value o) fs) ≡ o
unfolding get_header header_text value_text text
get_header-own name none fs same absent = absent
get_header-own name (some s) fs same absent = rw same refl

normalize_header-normal : (o : Option String) → IsNormalRef o → normalize_header o ≡ valid o
unfolding normalize_header
normalize_header-normal none n = refl
normalize_header-normal (some r) n = rw n refl

check_match-same :
    (missing mismatch : String) (o : Option String)
    → IsNormalRef o
    → check_match missing mismatch o o ≡ valid o
unfolding check_match
check_match-same missing mismatch none n = refl
check_match-same missing mismatch (some r) n = rw n (rw (eq_refl r) refl)

-- The headers of a state.
abbrev headers_of : AgentStatePayload → String → Members
headers_of p state = member "x-node-id" (str p.node_id) (
    with_member "x-agent-ref" (text_value p.run_id) (
      with_member "x-agent-parent-ref" (text_value p.parent_ref)
        (member "x-agent-state" (str state) no_members)))

abbrev behind_ref : AgentStatePayload → String → Members
behind_ref p state =
    with_member "x-agent-parent-ref" (text_value p.parent_ref)
      (member "x-agent-state" (str state) no_members)

header_node :
    (p : AgentStatePayload) (state : String)
    → get_header "x-node-id" (headers_of p state) ≡ some p.node_id
unfolding get_header lower_is header_text value_text text
header_node p state = refl

header_state :
    (p : AgentStatePayload) (state : String)
    → get_header "x-agent-state" (headers_of p state) ≡ some state
unfolding get_header lower_is header_text value_text text
header_state p state =
    get_header-other "x-agent-state" "x-agent-ref" (text_value p.run_id) (behind_ref p state) refl
    ∙ get_header-other "x-agent-state" "x-agent-parent-ref" (text_value p.parent_ref)
        (member "x-agent-state" (str state) no_members) refl

header_ref :
    (p : AgentStatePayload) (state : String)
    → get_header "x-agent-ref" (headers_of p state) ≡ p.run_id
unfolding get_header lower_is
header_ref p state = get_header-own "x-agent-ref" p.run_id (behind_ref p state) refl (
    get_header-other "x-agent-ref" "x-agent-parent-ref" (text_value p.parent_ref)
      (member "x-agent-state" (str state) no_members) refl)

header_parent :
    (p : AgentStatePayload) (state : String)
    → get_header "x-agent-parent-ref" (headers_of p state) ≡ p.parent_ref
unfolding get_header lower_is
header_parent p state =
    get_header-other "x-agent-parent-ref" "x-agent-ref" (text_value p.run_id) (behind_ref p state)
      refl
    ∙ get_header-own "x-agent-parent-ref" p.parent_ref
        (member "x-agent-state" (str state) no_members) refl refl

module _ (to_lower_case to_upper_case : String → String) (stringify : Value → String)
    (parse : String → Option Value) (to_base64 from_base64 : String → String) where
  -- What is written for a state.
  abbrev pub state_object : AgentStatePayload → Value
  state_object p = object (member "version" (num "1") (payload_members p))

  -- JSON reads what it has written of the state, but for what has no text.
  abbrev pub JsonReads : AgentStatePayload → Type 0
  JsonReads p =
      parse (stringify (state_object p))
      ≡ some (object (plain_members (member "version" (num "1") (payload_members p))))

  -- The text of the state has a base64, not empty, from which it is read again.
  abbrev pub Base64Reads : AgentStatePayload → Type 0
  Base64Reads p =
      IsBase64 (to_base64 (stringify (state_object p)))
      × (from_base64 (to_base64 (stringify (state_object p))) ≡ stringify (state_object p))
      × ((encode_base64_url to_base64 from_base64 (stringify (state_object p)) == "") ≡ false)

  abbrev header : AgentStatePayload → String
  header p = state_header to_lower_case to_upper_case stringify parse to_base64 from_base64 p

  decoded_state-header :
      (p : AgentStatePayload)
      → JsonReads p
      → Base64Reads p
      → IsNormal to_lower_case to_upper_case p
      → decoded_state to_lower_case to_upper_case stringify parse to_base64 from_base64
          (some (header p))
        ≡ valid (some p)
  unfolding decoded_state decode_agent_state_header state_header parsed_state
  decoded_state-header p reads (is_base64, back, never_blank) n = rw never_blank (
      rw
        (decode_base64_url-encode_base64_url to_base64 from_base64 (stringify (state_object p))
          is_base64 back)
        (rw reads
          (rw (normalize_agent_state_payload-version to_lower_case to_upper_case p n) refl)))

  extracted :
      (p : AgentStatePayload)
      → JsonReads p
      → Base64Reads p
      → IsNormal to_lower_case to_upper_case p
      → extract_agent_state_from_headers to_lower_case to_upper_case stringify parse to_base64
          from_base64
          (headers_of p (header p))
        ≡ valid p
  unfolding extract_agent_state_from_headers required_node_id node_matches run_id_of parent_ref_of
      variables_of metadata_of
  extracted p json base64 (filled, node, run, parent, vars, meta) = rw (header_node p (header p)) (
      rw filled (
        rw node (
          rw (header_state p (header p)) (
            rw (decoded_state-header p json base64 (filled, node, run, parent, vars, meta)) (
              rw (eq_refl p.node_id) (
                rw (header_ref p (header p)) (
                  rw (normalize_header-normal p.run_id run) (
                    rw (check_match-same _ _ p.run_id run) (
                      rw (header_parent p (header p)) (
                        rw (normalize_header-normal p.parent_ref parent) (
                          rw (check_match-same _ _ p.parent_ref parent) (
                            normalize_agent_state_payload-payload to_lower_case to_upper_case p
                              (filled, node, run, parent, vars, meta)))))))))))))

  -- For a state in normal form, whose JSON and base64 are read as they were written, the headers that
  -- encode it give back that very state.
  pub extract_agent_state_from_headers-encode_agent_state_headers :
      (p : AgentStatePayload)
      → JsonReads p
      → Base64Reads p
      → IsNormal to_lower_case to_upper_case p
      → and_then
          (encode_agent_state_headers to_lower_case to_upper_case stringify parse to_base64
            from_base64
            (object (payload_members p)))
          (extract_agent_state_from_headers to_lower_case to_upper_case stringify parse to_base64
            from_base64)
        ≡ valid p
  unfolding encode_agent_state_headers
  extract_agent_state_from_headers-encode_agent_state_headers p json base64 n =
      rw (normalize_agent_state_payload-payload to_lower_case to_upper_case p n)
        (extracted p json base64 n)
