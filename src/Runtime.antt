-- ===== src/Runtime.antt =====
-- src/runtime-adapter/types.ts: the decisions that the runtime is asked for. A caller's input holds
-- `Value`s, since `normalizeRuntimeDecisionInput` trusts no declared type; a missing parent object
-- reads as one whose fields are all undefined.
pub mod Normalize
pub mod Local
pub mod Mapper
pub mod Response
pub mod Remote
pub mod Resolver
use coreax.Prelude.{ℕ, String, Bool, Option, List}
use coreax.Value.{Value}

pub data Action : Type 0 where
  allow deny escalate clarify : Action

pub data AdapterMode : Type 0 where
  local remote : AdapterMode

pub data Mode : Type 0 where
  observe enforce : Mode

pub data Strategy : Type 0 where
  deny_on_match deny_on_any : Strategy

pub data FailureMode : Type 0 where
  local allow deny : FailureMode

pub data Source : Type 0 where
  local remote fallback_local fallback_allow fallback_deny : Source

abbrev pub protocol : String
protocol = "2026-02-01"

pub record Context : Type 0 where
  pub execution_layer : Value
  pub tenant : Value
  pub server : Value
  pub tool : Value
  pub node_id : Value
  pub run_id : Value
  pub metadata : Value

pub record Enforcement : Type 0 where
  pub mode : Value
  pub strategy : Value
  pub deny_on : Value
  pub force_deny : Value

pub record Facts : Type 0 where
  pub reasons : Value
  pub risk_tags : Value
  pub attributes : Value

pub record DecisionInput : Type 0 where
  pub protocol_version : Value
  pub request_id : Value
  pub context : Context
  pub enforcement : Enforcement
  pub input : Facts

pub record Obligation : Type 0 where
  pub kind : String
  pub params : Option Value

pub record AuditRef : Type 0 where
  pub ref : String
  pub kind : Option String
  pub href : Option String

pub record DecisionOutput : Type 0 where
  pub protocol_version : String
  pub adapter_mode : AdapterMode
  pub source : Source
  pub decision : Action
  pub reason : Option String
  pub reasons : List String
  pub obligations : List Obligation
  pub audit_refs : List AuditRef

-- `ResolvedRuntimeAdapterConfig`; the headers and the key travel with the request only.
pub record AdapterConfig : Type 0 where
  pub protocol_version : String
  pub failure_mode : FailureMode
  pub endpoint : Option String
  pub max_retries : ℕ
  pub retry_backoff_ms : ℕ
