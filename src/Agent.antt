-- ===== src/Agent.antt =====
-- The data that agent runs exchange: types/agent.ts, types/errors.ts and types/scheduler.ts.
use open_dynamic_workflow.Base.{ℕ, String, Bool, Option}

-- `AgentResultStatus`.
pub data AgentStatus : Type 0 where
  succeeded failed timed_out cancelled skipped : AgentStatus

pub record SerializedError : Type 0 where
  pub name : String
  pub message : String
  pub code : Option String

-- `AgentResult`: a success has no error, a failure has one. Label, provider, model, permissions
-- and metadata are copied through and play no part in any decision.
pub record AgentResult : Type 0 where
  pub ok : Bool
  pub status : AgentStatus
  pub id : String
  pub stdout : String
  pub stderr : String
  pub exit_code : Option ℕ
  pub duration_ms : ℕ
  pub artifact_dir : String
  pub validation_error_path : Option String
  pub error : Option SerializedError

pub data AbortType : Type 0 where
  fail_fast user timeout other : AbortType

pub data AbortCause : Type 0 where
  failure timeout error : AbortCause

pub record AbortReason : Type 0 where
  pub type : AbortType
  pub message : String
  pub source : Option String
  pub cause : Option AbortCause
