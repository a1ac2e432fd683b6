-- ===== src/Schemas/Report.antt =====
-- schemas/report.py and schemas/pipeline.py: the report of a finding, and what the CI gate returns.
use cft_security_agent.Prelude.{ℕ, String, Bool, Option, List}
use cft_security_agent.Schemas.Finding.{
  PrFindingContext, ArchitectureContext, CvssResult, ContextPriority,
}
use cft_security_agent.Schemas.Execution.{ErrorDetail, ExecutionStatus}
use cft_security_agent.Schemas.Evidence.{Evidence}
use cft_security_agent.Schemas.AgentLoop.{AgentDecisionRecord, StopReason}

pub data ReportStatus : Type 0 where
  confirmed rejected inconclusive policy_blocked : ReportStatus

abbrev pub status_text : ReportStatus → String
status_text confirmed = "confirmed"
status_text rejected = "rejected"
status_text inconclusive = "inconclusive"
status_text policy_blocked = "policy_blocked"

pub data GateEffect : Type 0 where
  pass warn fail : GateEffect

pub data GateCategory : Type 0 where
  none_category confirmed_risk policy_block inconclusive_category technical_error : GateCategory

pub data GateDecisionBasis : Type 0 where
  no_blocking_condition confirmed_risk_basis policy_or_uncertainty technical_pipeline_error :
      GateDecisionBasis

pub data DecisionBasis : Type 0 where
  agent_budget capability_specific_evidence validator_policy iteration_limit workflow_state :
      DecisionBasis

pub data ValidatorDecision : Type 0 where
  approved denied not_run : ValidatorDecision

pub record ReportFinding : Type 0 where
  pub id : String
  pub source : String
  pub rule_id : String
  pub title : String
  pub description : Option String
  pub severity : Option String
  pub service : Option String
  pub file : String
  pub line_start : Option ℕ
  pub line_end : Option ℕ
  pub pr_context : Option PrFindingContext

pub record VerificationSummary : Type 0 where
  pub action_id : Option String
  pub capability : Option String
  pub target : Option String
  pub environment : Option String
  pub validator_decision : ValidatorDecision
  pub validator_reason : Option String
  pub evidence_count : ℕ
  pub evidence_types : List String
  pub decision_basis : DecisionBasis

pub record SandboxActionSummary : Type 0 where
  pub action_id : String
  pub capability : String
  pub target : String
  pub environment : String
  pub purpose : String
  pub parameter_names : List String
  pub execution_status : Option ExecutionStatus
  pub exit_code : Option ℕ
  pub timed_out : Bool
  pub duration_ms : Option ℕ
  pub command : List String
  pub cwd : Option String
  pub stdout : Option String
  pub stderr : Option String
  pub sandbox_session_id : Option String
  pub artifact_refs : List String

pub record PolicyDecisionSummary : Type 0 where
  pub action_id : String
  pub decision : ValidatorDecision
  pub reason : String
  pub rules : List String

pub record CiGateImpact : Type 0 where
  pub effect : GateEffect
  pub category : GateCategory
  pub reason : String

pub record FinalReport : Type 0 where
  pub finding_id : String
  pub finding : ReportFinding
  pub status : ReportStatus
  pub analysis_summary : Option String
  pub risk_signals : List String
  pub code_context : Option String
  pub architecture_context : Option ArchitectureContext
  pub hypothesis : Option String
  pub hypothesis_confidence : Option ℕ
  pub verification : VerificationSummary
  pub cvss : Option CvssResult
  pub context_priority : Option ContextPriority
  pub evidence : List Evidence
  pub sandbox_actions : List SandboxActionSummary
  pub policy_decisions : List PolicyDecisionSummary
  pub agent_decisions : List AgentDecisionRecord
  pub ci_gate_impact : Option CiGateImpact
  pub explanation : String
  pub limitations : List String
  pub next_step : String
  pub iterations : ℕ
  pub stop_reason : Option StopReason

pub record PipelineFindingResult : Type 0 where
  pub finding_id : String
  pub status : ReportStatus
  pub gate_effect : GateEffect
  pub category : GateCategory
  pub reason : String
  pub report_path : Option String
  pub context_priority : Option String
  pub cvss_severity : Option String

pub record GateResult : Type 0 where
  pub decision : GateEffect
  pub exit_code : ℕ
  pub decision_basis : GateDecisionBasis
  pub reports_total : ℕ
  pub confirmed_count : ℕ
  pub rejected_count : ℕ
  pub inconclusive_count : ℕ
  pub policy_blocked_count : ℕ
  pub technical_errors : ℕ
  pub reasons : List String
  pub errors : List ErrorDetail
  pub stage_errors : List String
  pub findings : List PipelineFindingResult
