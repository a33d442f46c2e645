-- ===== src/DecisionFlow/Tests.antt =====
-- The flow of one call, and the theorem at it.
use coreax.Prelude.{List, map, true, false, none, some, [], ◌∷◌, ◌≡◌, refl}
use coreax.Text.{trim}
use coreax.Value.{
  undefined, str, object, no_members, member, lookup, get, trimmed, text, is_text, is_true,
}
use coreax.Governance.{ok}
use coreax.Runtime.{deny_on_match}
use coreax.Runtime.Mapper.{map_runtime_decision_request}
use coreax.Runtime.Local.{evaluate, enforcement_of, decide, denies}
use coreax.Runtime.Normalize.{normalize, normalize_string_array}
use coreax.DecisionFlow.{
  DecisionFlowContext, DecisionFlow, Question, normalized_reasons, cache_key, join_commas,
  request_of, create_decision_flow, extract_approval_token, arg_token, read_header, header_value,
  scrub_approval_token, scrub_args, scrubbed, without,
}
use coreax.DecisionFlow.Kept.{answer, answers, answers-eq}
use coreax.DecisionFlow.Keys.{IsPlain}

abbrev call : DecisionFlowContext
call = record {
  tenant = some "acme";
  server = "files";
  tool = "write@1";
  tool_ref = "mcp://files/write@1";
  node_id = none;
  agent_run_id = none;
}

abbrev swap_question : Question
swap_question = record {
  reasons = " handler_swap " ∷ [];
  request_id_suffix = none;
  strategy = deny_on_match;
  force_deny = false;
  deny_on = "handler_swap" ∷ [];
}

abbrev fresh : DecisionFlow
fresh = record { approval_token = none; approval_checked = none; runtime_decisions = [] }

-- The token of the header goes before that of the arguments, and both are taken out.
token_found :
    create_decision_flow
      (member "x-sec0-approval" (str " t ") no_members)
      (object (member "approval_token" (str "u") no_members))
    ≡ (
      record { approval_token = some "t"; approval_checked = none; runtime_decisions = [] },
      no_members,
      object no_members,
    )
unfolding create_decision_flow extract_approval_token arg_token read_header header_value
    scrub_approval_token scrub_args scrubbed without trimmed trim lookup get
token_found = refl

-- A header that is written with capitals is not found.
token_missed :
    extract_approval_token (member "X-Sec0-Approval" (str "t") no_members) undefined ≡ none
unfolding extract_approval_token arg_token read_header header_value trimmed lookup get
token_missed = refl

-- The same reason, where the deny list names another one.
abbrev lenient : Question
lenient = record swap_question { deny_on = "other" ∷ [] }

swap-IsPlain : IsPlain swap_question
unfolding normalized_reasons trim
swap-IsPlain = record {
  entries_apart = ((refl, refl), tt);
  entries_barless = (refl, tt);
  reasons_comma_free = (refl, tt);
}

lenient-IsPlain : IsPlain lenient
unfolding normalized_reasons trim
lenient-IsPlain = record {
  entries_apart = ((refl, refl), tt);
  entries_barless = (refl, tt);
  reasons_comma_free = (refl, tt);
}

abbrev asked : List Question
asked = swap_question ∷ lenient ∷ swap_question ∷ []

answers-eq_example : answers {W = Unit} call asked fresh tt ≡ map (λ q. ok (answer call q)) asked
answers-eq_example =
    answers-eq {W = Unit} call asked fresh tt refl
      (swap-IsPlain, (lenient-IsPlain, (swap-IsPlain, tt)))

-- Reasons that contain a comma share a key with the reasons between the commas, which the local
-- adapter answers otherwise.
abbrev joined : Question
joined = record swap_question { reasons = "handler_swap,other" ∷ [] }

abbrev apart : Question
apart = record swap_question { reasons = "handler_swap" ∷ "other" ∷ [] }

keys_collide : cache_key joined ≡ cache_key apart
unfolding cache_key normalized_reasons trim join_commas
keys_collide = refl

answers_differ : (answer call joined ≡ false) × (answer call apart ≡ true)
unfolding request_of normalized_reasons trim trimmed map_runtime_decision_request evaluate
    enforcement_of decide denies normalize normalize_string_array text is_text is_true
answers_differ = (refl, refl)
