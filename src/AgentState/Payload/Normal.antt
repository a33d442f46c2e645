-- ===== src/AgentState/Payload/Normal.antt =====
-- src/agent-state/payload.ts: a state in normal form, read back from an object.
use coreax.Prelude.{String, false, Option, none, some, [], ◌==◌, ◌≡◌, refl, ap, ◌∙◌, is_empty}
use coreax.Value.{Value, undefined, num, str, object, Members, no_members, member, lookup}
use coreax.AgentState.{
  Checked, valid, AgentStateVariables, AgentStatePayload, normalize_node_id, normalize_run_id,
}
use coreax.AgentState.Payload.{
  is_finite, has_own, plain, plain_members, with_member, run_field, run_of, parent_of, metadata_of,
  if_own, none_if_empty, collect_scopes, variables_of, normalize_members,
  normalize_agent_state_payload, text_value, scopes, variables_value, metadata_value,
  payload_members,
}
use coreax.AgentState.Payload.Fields.{
  has_own-other, lookup-other, or_valid, if_own-with_member, if_own-other, plained, plain_field,
  plain_text,
}

-- Each part of the state is what its own check makes of it.
abbrev pub IsNormalRef : Option String → Type 0
IsNormalRef none = Unit
IsNormalRef (some r) = normalize_run_id r ≡ valid r

abbrev pub IsPlain : Option Members → Type 0
IsPlain none = Unit
IsPlain (some ms) = plain_members ms ≡ ms

node_field : (p : AgentStatePayload) → lookup "nodeId" (payload_members p) ≡ str p.node_id
unfolding payload_members lookup
node_field p = refl

plain_metadata : (o : Option Members) → IsPlain o → plained (metadata_value o) ≡ metadata_value o
unfolding plain
plain_metadata none n = refl
plain_metadata (some ms) n = ap (λ fs. some (object fs)) n

module _ (to_lower_case to_upper_case : String → String) where
  abbrev pub IsNormalVariables : Option AgentStateVariables → Type 0
  IsNormalVariables none = Unit
  IsNormalVariables (some vs) =
      (collect_scopes to_lower_case to_upper_case [] (scopes vs) ≡ valid vs)
      × (is_empty vs ≡ false)
      × (plain_members (scopes vs) ≡ scopes vs)

  abbrev pub IsNormal : AgentStatePayload → Type 0
  IsNormal p =
      ((p.node_id == "") ≡ false)
      × (normalize_node_id to_lower_case (str p.node_id) ≡ valid p.node_id)
      × IsNormalRef p.run_id
      × IsNormalRef p.parent_ref
      × IsNormalVariables p.variables
      × IsPlain p.metadata

  run_of-normal :
      (o : Option String) (fs : Members)
      → has_own "runId" fs ≡ false
      → lookup "ref" fs ≡ undefined
      → IsNormalRef o
      → run_of (run_field (with_member "runId" (text_value o) fs)) ≡ valid o
  unfolding run_of run_field has_own lookup
  run_of-normal none fs a b n = rw a (rw b refl)
  run_of-normal (some r) fs a b n = rw n refl

  parent_of-normal :
      (o : Option String) → IsNormalRef o → or_valid parent_of (text_value o) ≡ valid o
  unfolding parent_of
  parent_of-normal none n = refl
  parent_of-normal (some r) n = rw n refl

  metadata_of-normal :
      (o : Option Members) → IsPlain o → or_valid metadata_of (metadata_value o) ≡ valid o
  unfolding metadata_of
  metadata_of-normal none n = refl
  metadata_of-normal (some ms) n = rw n refl

  variables_of-normal :
      (o : Option AgentStateVariables)
      → IsNormalVariables o
      → or_valid (variables_of to_lower_case to_upper_case) (variables_value o) ≡ valid o
  unfolding variables_of none_if_empty
  variables_of-normal none n = refl
  variables_of-normal (some vs) (all, full, same) = rw all (rw full refl)

  -- The fields behind the parent, behind the run and behind the node.
  abbrev behind_variables : Option Members → Members
  behind_variables m = with_member "metadata" (metadata_value m) no_members

  abbrev behind_parent : Option AgentStateVariables → Option Members → Members
  behind_parent v m = with_member "variables" (variables_value v) (behind_variables m)

  abbrev behind_run : Option String → Option AgentStateVariables → Option Members → Members
  behind_run o v m = with_member "parentRef" (text_value o) (behind_parent v m)

  has_own-behind_run :
      (k : String) (o : Option String) (v : Option AgentStateVariables) (m : Option Members)
      → ("parentRef" == k) ≡ false
      → ("variables" == k) ≡ false
      → ("metadata" == k) ≡ false
      → has_own k (behind_run o v m) ≡ false
  unfolding has_own
  has_own-behind_run k o v m a b c =
      has_own-other k "parentRef" (text_value o) (behind_parent v m) a
      ∙ has_own-other k "variables" (variables_value v) (behind_variables m) b
      ∙ has_own-other k "metadata" (metadata_value m) no_members c

  lookup-behind_run :
      (o : Option String) (v : Option AgentStateVariables) (m : Option Members)
      → lookup "ref" (behind_run o v m) ≡ undefined
  unfolding lookup
  lookup-behind_run o v m =
      lookup-other "ref" "parentRef" (text_value o) (behind_parent v m) refl
      ∙ lookup-other "ref" "variables" (variables_value v) (behind_variables m) refl
      ∙ lookup-other "ref" "metadata" (metadata_value m) no_members refl

  -- A field of a normal state, read past the fields in front of it.
  if_own-payload :
      {A : Type 0} (k : String) (p : AgentStatePayload) (f : Value → Checked (Option A))
      → ("nodeId" == k) ≡ false
      → ("runId" == k) ≡ false
      → if_own k (payload_members p) f ≡ if_own k (behind_run p.parent_ref p.variables p.metadata) f
  unfolding payload_members
  if_own-payload k p f a b =
      if_own-other k "nodeId" (some (str p.node_id))
        (with_member "runId" (text_value p.run_id) (behind_run p.parent_ref p.variables p.metadata))
        f a
      ∙ if_own-other k "runId" (text_value p.run_id)
          (behind_run p.parent_ref p.variables p.metadata) f b

  parent_ref-payload :
      (p : AgentStatePayload)
      → IsNormalRef p.parent_ref
      → if_own "parentRef" (payload_members p) parent_of ≡ valid p.parent_ref
  unfolding has_own
  parent_ref-payload p n =
      if_own-payload "parentRef" p parent_of refl refl
      ∙ if_own-with_member "parentRef" (text_value p.parent_ref)
          (behind_parent p.variables p.metadata) parent_of
          (has_own-other "parentRef" "variables" (variables_value p.variables)
              (behind_variables p.metadata) refl
            ∙ has_own-other "parentRef" "metadata" (metadata_value p.metadata) no_members refl)
      ∙ parent_of-normal p.parent_ref n

  variables-payload :
      (p : AgentStatePayload)
      → IsNormalVariables p.variables
      → if_own "variables" (payload_members p) (variables_of to_lower_case to_upper_case)
        ≡ valid p.variables
  unfolding has_own
  variables-payload p n =
      let f = variables_of to_lower_case to_upper_case in
      if_own-payload "variables" p f refl refl
      ∙ if_own-other "variables" "parentRef" (text_value p.parent_ref)
          (behind_parent p.variables p.metadata) f refl
      ∙ if_own-with_member "variables" (variables_value p.variables) (behind_variables p.metadata) f
          (has_own-other "variables" "metadata" (metadata_value p.metadata) no_members refl)
      ∙ variables_of-normal p.variables n

  metadata-payload :
      (p : AgentStatePayload)
      → IsPlain p.metadata
      → if_own "metadata" (payload_members p) metadata_of ≡ valid p.metadata
  unfolding has_own
  metadata-payload p n =
      if_own-payload "metadata" p metadata_of refl refl
      ∙ if_own-other "metadata" "parentRef" (text_value p.parent_ref)
          (behind_parent p.variables p.metadata) metadata_of refl
      ∙ if_own-other "metadata" "variables" (variables_value p.variables)
          (behind_variables p.metadata) metadata_of refl
      ∙ if_own-with_member "metadata" (metadata_value p.metadata) no_members metadata_of refl
      ∙ metadata_of-normal p.metadata n

  run-payload :
      (p : AgentStatePayload)
      → IsNormalRef p.run_id
      → run_of (run_field (payload_members p)) ≡ valid p.run_id
  unfolding run_field payload_members has_own lookup
  run-payload p n =
      run_of-normal p.run_id (behind_run p.parent_ref p.variables p.metadata)
        (has_own-behind_run "runId" p.parent_ref p.variables p.metadata refl refl refl)
        (lookup-behind_run p.parent_ref p.variables p.metadata) n

  normalize_members-payload :
      (p : AgentStatePayload)
      → IsNormal p
      → normalize_members to_lower_case to_upper_case (payload_members p) ≡ valid p
  unfolding normalize_members
  normalize_members-payload p (filled, node, run, parent, vars, meta) = rw (node_field p) (
      rw node (
        rw (run-payload p run) (
          rw (parent_ref-payload p parent)
            (rw (variables-payload p vars) (rw (metadata-payload p meta) refl)))))

  past_version :
      (fs : Members)
      → normalize_members to_lower_case to_upper_case (member "version" (num "1") fs)
        ≡ normalize_members to_lower_case to_upper_case fs
  unfolding normalize_members run_field if_own has_own lookup
  past_version fs = refl

  plain_variables :
      (o : Option AgentStateVariables)
      → IsNormalVariables o
      → plained (variables_value o) ≡ variables_value o
  unfolding plain
  plain_variables none n = refl
  plain_variables (some vs) (all, full, same) = ap (λ fs. some (object fs)) same

  plain_members-payload :
      (p : AgentStatePayload)
      → IsNormalVariables p.variables
      → IsPlain p.metadata
      → plain_members (payload_members p) ≡ payload_members p
  unfolding payload_members plain_members plain
  plain_members-payload p vars meta =
      ap (λ fs. member "nodeId" (str p.node_id) fs)
        (plain_field "runId" (text_value p.run_id) _ _ (plain_text p.run_id) (
          plain_field "parentRef" (text_value p.parent_ref) _ _ (plain_text p.parent_ref) (
            plain_field "variables" (variables_value p.variables) _ _
              (plain_variables p.variables vars)
              (plain_field "metadata" (metadata_value p.metadata) no_members no_members
                (plain_metadata p.metadata meta) refl))))

  normalize_members-version :
      (p : AgentStatePayload)
      → IsNormal p
      → normalize_members to_lower_case to_upper_case
          (plain_members (member "version" (num "1") (payload_members p)))
        ≡ valid p
  unfolding plain_members is_finite
  normalize_members-version p (filled, node, run, parent, vars, meta) =
      ap (λ fs. normalize_members to_lower_case to_upper_case (member "version" (num "1") fs))
        (plain_members-payload p vars meta)
      ∙ past_version (payload_members p)
      ∙ normalize_members-payload p (filled, node, run, parent, vars, meta)

  -- An object with the parts of a normal state is read as that state.
  pub normalize_agent_state_payload-payload :
      (p : AgentStatePayload)
      → IsNormal p
      → normalize_agent_state_payload to_lower_case to_upper_case (object (payload_members p))
        ≡ valid p
  unfolding normalize_agent_state_payload
  normalize_agent_state_payload-payload p n = normalize_members-payload p n

  -- So it is read behind the version, and after a way through JSON.
  pub normalize_agent_state_payload-version :
      (p : AgentStatePayload)
      → IsNormal p
      → normalize_agent_state_payload to_lower_case to_upper_case
          (object (plain_members (member "version" (num "1") (payload_members p))))
        ≡ valid p
  unfolding normalize_agent_state_payload
  normalize_agent_state_payload-version p n = normalize_members-version p n
