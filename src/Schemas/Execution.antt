-- ===== src/Schemas/Execution.antt =====
-- schemas/errors.py and schemas/execution.py
use cft_security_agent.Prelude.{ℕ, String, Bool, true, false, Option, List}

pub data ErrorCode : Type 0 where
  validation_error not_found timeout build_failed unsupported_runtime isolation_blocked
        dependency_unavailable persistence_error invalid_response rate_limited auth_error
        execution_failed internal_error :
      ErrorCode

pub data ErrorLayer : Type 0 where
  sast agent llm validator executor storage pipeline : ErrorLayer

pub record ErrorDetail : Type 0 where
  pub code : ErrorCode
  pub layer : ErrorLayer
  pub message : String
  pub retryable : Bool

pub data ExecutionStatus : Type 0 where
  completed failed denied : ExecutionStatus

abbrev pub is_completed : ExecutionStatus → Bool
is_completed completed = true
is_completed _ = false

abbrev pub is_denied : ExecutionStatus → Bool
is_denied denied = true
is_denied _ = false

pub record ExecutionResult : Type 0 where
  pub run_id : String
  pub action_id : String
  pub status : ExecutionStatus
  pub exit_code : ℕ
  pub stdout : String
  pub stderr : String
  pub timed_out : Bool
  pub evidence_ref : String
  pub audit_ref : String
  pub artifacts : List String
  pub duration_ms : ℕ
  pub error : Option ErrorDetail
