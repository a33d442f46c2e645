-- ===== src/Governance.antt =====
-- src/governance/types.ts: submissions of actions for review, and what becomes of them. The payload
-- of an action is of any type.
pub mod Wait
pub mod Action
use coreax.Prelude.{String, Bool, true, false, Option}

-- What a call returns, or the message of the error that it throws.
pub data Try {ℓ} (A : Type ℓ) : Type ℓ where
  ok : A → Try A
  raised : String → Try A

pub data ReviewAction : Type 0 where
  approve reject edit ask_clarifying_question answer_clarification accept_improvement
        reject_improvement :
      ReviewAction

pub data Verdict : Type 0 where
  allow deny escalate clarify : Verdict

pub record HumanResolution (P : Type 0) : Type 0 where
  pub action : ReviewAction
  pub edited_payload : Option P

pub record SubmissionResult (P : Type 0) : Type 0 where
  pub submission_id : String
  pub payload : P
  pub decision : Verdict
  pub policy_reason : Option String
  pub human_resolution : Option (HumanResolution P)
  pub allow_execution : Bool
  pub effective_payload : P

pub record ExecutionRecord (P : Type 0) : Type 0 where
  pub submission_id : String
  pub executed : Bool
  pub final_payload : P
  pub status : String
  pub result_summary : Option String
  pub output_reference : Option String
  pub error : Option String
  pub created_at : String
