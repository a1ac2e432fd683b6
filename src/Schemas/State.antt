-- ===== src/Schemas/State.antt =====
-- schemas/state.py. A key that `AgentState` lacks reads as its default: an empty list, a count of
-- 0, or `none`. Times are in microseconds.
use cft_security_agent.Prelude.{ℕ, String, Option, List}
use cft_security_agent.Schemas.AgentLoop.{
  StopReason, DynamicPlan, PlanValidationResult, AnalysisResult, Hypothesis, AgentActionRecord,
  AgentDecisionRecord,
}
use cft_security_agent.Schemas.Finding.{Finding, ArchitectureContext, CvssResult, ContextPriority}
use cft_security_agent.Schemas.Action.{ActionProposal, ValidationResult}
use cft_security_agent.Schemas.Execution.{ExecutionResult}
use cft_security_agent.Schemas.Evidence.{Evidence}
use cft_security_agent.Schemas.Report.{FinalReport}
use cft_security_agent.Schemas.Target.{TargetProfile, RuntimeServiceMap}

pub record AgentState : Type 0 where
  pub target_profile : Option TargetProfile
  pub runtime_services : Option RuntimeServiceMap
  pub finding : Finding
  pub code_context : Option String
  pub architecture_context : Option ArchitectureContext
  pub cvss : Option CvssResult
  pub context_priority : Option ContextPriority
  pub analysis : Option AnalysisResult
  pub hypothesis : Option Hypothesis
  pub dynamic_plan : Option DynamicPlan
  pub plan_history : List DynamicPlan
  pub plan_validation : Option PlanValidationResult
  pub proposed_action : Option ActionProposal
  pub validation : Option ValidationResult
  pub execution : Option ExecutionResult
  pub evidence : List Evidence
  pub action_history : List AgentActionRecord
  pub decision_history : List AgentDecisionRecord
  pub status : Option String
  pub stop_reason : Option StopReason
  pub iteration_count : ℕ
  pub max_iterations : Option ℕ
  pub max_steps : Option ℕ
  pub started_at : Option ℕ
  pub wall_clock_budget : Option ℕ
  pub sandbox_session_id : Option String
  pub final_report : Option FinalReport
