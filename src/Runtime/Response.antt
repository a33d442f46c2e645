-- ===== src/Runtime/Response.antt =====
-- src/runtime-adapter/shared.ts: reading the answer of a remote runtime. `none` is the error
-- `runtime_response_invalid_decision`.
use coreax.Prelude.{
  String, Option, none, some, List, [], ◌∷◌, ◌==◌, get_or, or_else, head, if◌then◌else◌,
}
use coreax.Text.{trim}
use coreax.Value.{Value, str, array, object, elements, text, get, trimmed}
use coreax.Runtime.{
  Action, allow, deny, escalate, clarify, AdapterMode, Source, Obligation, AuditRef, DecisionOutput,
  protocol,
}
use coreax.Runtime.Normalize.{normalize_string_array}

unfoldable pub normalize_action : Value → Option Action
normalize_action (str s) =
    if s == "allow"
    then some allow
    else if s == "deny"
    then some deny
    else if s == "escalate"
    then some escalate
    else if s == "clarify"
    then some clarify
    else none
normalize_action _ = none

-- `String(v ?? "").trim()`, absent if it is empty
abbrev text_of : Value → Option String
text_of v = let t = trim (text v) in if t == "" then none else some t

abbrev object_or_none : Value → Option Value
object_or_none (object fs) = some (object fs)
object_or_none _ = none

-- Of an entry that is no object every field is undefined, so that it is skipped too.
obligations_of : List Value → List Obligation
obligations_of [] = []
obligations_of (v ∷ vs) = elim (text_of (get "type" v)) [
  | none ↦ obligations_of vs
  | some t ↦ record { kind = t; params = object_or_none (get "params" v) } ∷ obligations_of vs
]

normalize_obligations : Value → List Obligation
normalize_obligations (array vs) = obligations_of (elements vs)
normalize_obligations _ = []

audit_refs_of : List Value → List AuditRef
audit_refs_of [] = []
audit_refs_of (v ∷ vs) = elim (text_of (get "ref" v)) [
  | none ↦ audit_refs_of vs
  | some r ↦
      record { ref = r; kind = text_of (get "kind" v); href = text_of (get "href" v) }
      ∷ audit_refs_of vs
]

normalize_audit_refs : Value → List AuditRef
normalize_audit_refs (array vs) = audit_refs_of (elements vs)
normalize_audit_refs _ = []

-- The reason given, or the first of the reasons unless the action is to allow.
abbrev primary_reason : Value → Action → List String → Option String
primary_reason given allow reasons = trimmed given
primary_reason given _ reasons = or_else (trimmed given) (head reasons)

unfoldable pub parse_response : Value → AdapterMode → Option DecisionOutput
unfolding obligations_of normalize_obligations audit_refs_of normalize_audit_refs
parse_response payload adapter_mode =
    let decision = get "decision" payload in
    let reasons = normalize_string_array (get "reasons" decision) in
    elim (normalize_action (get "action" decision)) [
      | none ↦ none
      | some action ↦ some (record {
        protocol_version = get_or (trimmed (get "protocolVersion" payload)) protocol;
        adapter_mode = adapter_mode;
        source = Source.remote;
        decision = action;
        reason = primary_reason (get "reason" decision) action reasons;
        reasons = reasons;
        obligations = normalize_obligations (get "obligations" decision);
        audit_refs = normalize_audit_refs (get "auditRefs" decision);
      })
    ]
