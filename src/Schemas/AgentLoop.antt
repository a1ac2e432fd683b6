-- ===== src/Schemas/AgentLoop.antt =====
-- schemas/plan.py, schemas/agent_loop.py, schemas/agent_outputs.py and schemas/hypothesis.py.
use cft_security_agent.Prelude.{ℕ, String, Bool, Option, List}
use cft_security_agent.Schemas.Action.{ActionProposal, ValidationResult}
use cft_security_agent.Schemas.Execution.{ExecutionResult}

pub data StopReason : Type 0 where
  terminal_evidence policy_blocked plan_rejected step_budget_exhausted wall_clock_budget_exhausted
        execution_timeout build_failure unsupported_runtime isolation_or_policy_blocked
        execution_failed insufficient_evidence :
      StopReason

-- the status of a `ReevaluationResult` and of an `EvidenceGuardDecision`
pub data Outcome : Type 0 where
  confirmed rejected inconclusive continue : Outcome

abbrev pub outcome_text : Outcome → String
outcome_text confirmed = "confirmed"
outcome_text rejected = "rejected"
outcome_text inconclusive = "inconclusive"
outcome_text continue = "continue"

pub record PlannedAction : Type 0 where
  pub index : ℕ
  pub action : ActionProposal
  pub expected_observation : String
  pub continue_if : String

pub record DynamicPlan : Type 0 where
  pub id : String
  pub target : String
  pub environment : String
  pub hypothesis_id : String
  pub goal : String
  pub max_steps : ℕ
  pub sandbox_session_id : Option String
  pub continuation_reason : String
  pub stop_conditions : List String
  pub steps : List PlannedAction

pub record PlanValidationResult : Type 0 where
  pub approved : Bool
  pub plan_id : String
  pub reason : String
  pub rules : List String

pub record AnalysisResult : Type 0 where
  pub summary : String
  pub risk_signals : List String
  pub needs_verification : Bool

-- The confidence is in thousandths.
pub record Hypothesis : Type 0 where
  pub id : String
  pub statement : String
  pub based_on : List String
  pub expected_evidence : String
  pub confidence : ℕ

pub record ReevaluationResult : Type 0 where
  pub status : Outcome
  pub explanation : String

pub record AgentActionRecord : Type 0 where
  pub step : ℕ
  pub plan_id : Option String
  pub action : ActionProposal
  pub validation : ValidationResult
  pub execution : Option ExecutionResult
  pub evidence_ids : List String

pub data DecisionOutcome : Type 0 where
  continue stop : DecisionOutcome

pub record AgentDecisionRecord : Type 0 where
  pub step : ℕ
  pub outcome : DecisionOutcome
  pub reason : String
  pub evidence_ids : List String
  pub plan_id : Option String
  pub stop_reason : Option StopReason
