-- ===== src/AgentState.antt =====
-- src/agent-state/: the state of a run that one service hands to the next in the headers of a request.
-- This file has what validation.ts, types.ts and constants.ts define.
pub mod Encoding
pub mod Payload
pub mod Codec
mod Tests
use Prim.Native.Char.{Char, code}
use Prim.Native.String.{[], ◌∷◌}
use Prim.Native.String
use coreax.Prelude.{
  ℕ, zero, suc, String, Bool, true, false, not, ◌&&◌, ◌||◌, Option, none, some, List, leb, num_eq,
  ◌==◌, if◌then◌else◌,
}
use coreax.Text.{trim}
use coreax.Value.{Value, str, Members}

-- What a function returns, or the message of the error that it throws, behind the prefix that all
-- messages here have.
pub data Checked (A : Type 0) : Type 0 where
  valid : A → Checked A
  failed : String → Checked A

abbrev pub and_then : {A B : Type 0} → Checked A → (A → Checked B) → Checked B
and_then (valid a) f = f a
and_then (failed e) f = failed e

-- The variables of each scope, under the scope's name.
abbrev pub AgentStateVariables : Type 0
AgentStateVariables = List (String × Members)

pub record AgentStatePayload : Type 0 where
  pub node_id : String
  pub run_id : Option String
  pub parent_ref : Option String
  pub variables : Option AgentStateVariables
  pub metadata : Option Members

pub is_dash : Char → Bool
is_dash c = num_eq (code c) 45

is_digit : Char → Bool
is_digit c = leb 48 (code c) && leb (code c) 57

is_small : Char → Bool
is_small c = leb 97 (code c) && leb (code c) 122

is_capital : Char → Bool
is_capital c = leb 65 (code c) && leb (code c) 90

is_node_char : Char → Bool
is_node_char c = is_small c || is_digit c || is_dash c

-- Letters, digits, and the signs `.`, `_`, `:` and `-`
is_run_char : Char → Bool
is_run_char c =
    is_node_char c || is_capital c || num_eq (code c) 46 || num_eq (code c) 95 || num_eq (code c) 58

-- Each run of characters that do not pass becomes one sign.
replace_runs : (Char → Bool) → Char → (in_run : Bool) → String → String
replace_runs p sign in_run [] = []
replace_runs p sign in_run (c ∷ s) =
    let rest = replace_runs p sign (not (p c)) s in
    if p c then c ∷ rest else if in_run then rest else sign ∷ rest

-- `replace(/-{2,}/g, "-")`
squeeze : (behind_dash : Bool) → String → String
squeeze behind_dash [] = []
squeeze behind_dash (c ∷ s) =
    let rest = squeeze (is_dash c) s in if is_dash c && behind_dash then rest else c ∷ rest

strip_start : String → String
strip_start [] = []
strip_start (c ∷ s) = if is_dash c then strip_start s else c ∷ s

place_dash : Char → String → String
place_dash c [] = if is_dash c then [] else c ∷ []
place_dash c (d ∷ s) = c ∷ d ∷ s

strip_end : String → String
strip_end [] = []
strip_end (c ∷ s) = place_dash c (strip_end s)

-- `slice(0, n)`
take : ℕ → String → String
take zero s = []
take (suc n) [] = []
take (suc n) (c ∷ s) = c ∷ take n s

filled_or_fail : String → String → Checked String
filled_or_fail s message = if s == "" then failed message else valid s

-- `to_lower_case` is the method of texts of that name.
module _ (to_lower_case : String → String) where
  pub normalize_node_id : Value → Checked String
  normalize_node_id (str value) =
      and_then (filled_or_fail (to_lower_case (trim value)) "Node ID cannot be empty.") (λ trimmed.
        filled_or_fail
          (take 80
            (strip_end (strip_start (squeeze false (replace_runs is_node_char "-" false trimmed)))))
          "Node ID cannot be empty.")
  normalize_node_id _ = failed "Node ID is required."

pub normalize_run_id : String → Checked String
normalize_run_id value =
    if value == ""
    then failed "Agent runId cannot be null, undefined or empty."
    else and_then (filled_or_fail (trim value) "Agent runId cannot be empty.") (λ trimmed.
      filled_or_fail (take 120 (replace_runs is_run_char "_" false trimmed))
        "Agent runId cannot be empty.")

canonical : String → Option String
canonical upper =
    if upper == "AGENT"
      || upper == "GATEWAY"
      || upper == "SERVER"
      || upper == "TOOL"
      || upper == "ORCHESTRATOR"
    then some upper
    else if upper == "LLM"
    then some "ORCHESTRATOR"
    else none

module _ (to_upper_case : String → String) where
  pub normalize_scope : String → Checked String
  normalize_scope scope =
      let upper = to_upper_case (trim scope) in
      if upper == "" then failed "Agent variable scope is required." else elim (canonical upper) [
        | some c ↦ valid c
        | none ↦ failed (String.◌++◌ "Unknown agent variable scope: " scope)
      ]
