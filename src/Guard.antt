-- ===== src/Guard.antt =====
-- src/guard/types.ts: what a guard is asked and what it decides.
pub mod Rules
pub mod Execute
pub mod Legacy
pub mod Providers
use coreax.Prelude.{String, Bool, Option, List}
use coreax.Value.{Value}

pub data Outcome : Type 0 where
  allow redact block escalate : Outcome

pub data Kind : Type 0 where
  message_outbound tool_call mcp_call api_call : Kind

-- `GuardInput` with the fields of its context that the guard reads.
pub record Input : Type 0 where
  pub kind : Kind
  pub content : Value
  pub target : Value
  pub context_target : Value
  pub tags : Value

-- What the evaluation of a policy yields; the source, mode and hash of the policy are passed on
-- unread and left out.
pub record Decision : Type 0 where
  pub outcome : Outcome
  pub reason : Option String
  pub reasons : List String
  pub violation : Option String
  pub redacted_content : Option String

abbrev pub kind_text : Kind → String
kind_text message_outbound = "message_outbound"
kind_text tool_call = "tool_call"
kind_text mcp_call = "mcp_call"
kind_text api_call = "api_call"
