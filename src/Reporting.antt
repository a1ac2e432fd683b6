-- ===== src/Reporting.antt =====
-- reporting/builder.py: the final report of an agent's run.
pub mod Parts
pub mod Agreement
use cft_security_agent.Prelude.{
  ℕ, String, Bool, true, false, Option, some, none, List, [], ◌∷◌, map, length, if◌then◌else◌, ◌==◌,
  text_eq, or_default,
}
use cft_security_agent.Schemas.Finding.{
  Finding, PrFindingContext, PrClassification, ContextPriority, CvssResult,
}
use cft_security_agent.Schemas.Action.{ActionProposal, ValidationResult}
use cft_security_agent.Schemas.Evidence.{Evidence}
use cft_security_agent.Schemas.AgentLoop.{AnalysisResult, Hypothesis}
use cft_security_agent.Schemas.Report.{
  ReportStatus, confirmed, rejected, inconclusive, policy_blocked, status_text, ValidatorDecision,
  approved, denied, not_run, ReportFinding, VerificationSummary, CiGateImpact, FinalReport,
}
use cft_security_agent.Schemas.State.{AgentState}
use cft_security_agent.Redaction.{Patterns}
use cft_security_agent.Schemas.Action.{Value}
use cft_security_agent.Gate.{classify_finding_gate, FindingGateClassification}
use cft_security_agent.Gate.Decision.{unique, level_of, severity_of, classification_of}
use cft_security_agent.Reporting.Parts.{
  sandbox_actions, policy_decisions, decision_basis, limitations,
}

-- the status of the state, where it is terminal
unfoldable pub report_status : Option String → ReportStatus
report_status none = inconclusive
report_status (some s) =
    if s == "confirmed"
    then confirmed
    else if s == "rejected"
    then rejected
    else if s == "policy_blocked"
    then policy_blocked
    else inconclusive

-- `_EXPLANATIONS`
abbrev pub explanation_of : ReportStatus → String
explanation_of confirmed =
    "Capability-specific Evidence confirmed the reported security condition within the recorded evidence scope."
explanation_of rejected =
    "Capability-specific Evidence rejected the reported security condition within the recorded evidence scope."
explanation_of inconclusive = "The workflow ended without terminal capability-specific Evidence."
explanation_of policy_blocked =
    "Validator denied the proposed verification action according to policy."

-- `_NEXT_STEPS`
abbrev pub next_step_of : ReportStatus → String
next_step_of confirmed =
    "Remediate the verified condition, then rerun SAST and the same bounded verification capability."
next_step_of rejected =
    "Retain the Evidence for audit and review whether the originating SAST rule needs tuning."
next_step_of inconclusive =
    "Collect stronger approved Evidence or add a bounded verification capability before making a terminal claim."
next_step_of policy_blocked =
    "Use an allowlisted verification strategy or change policy through operator review."

abbrev pub decision_of : Option ValidationResult → ValidatorDecision
decision_of none = not_run
decision_of (some v) = if v.approved then approved else denied

abbrev pub mapped {ℓ κ} : {A : Type ℓ} {B : Type κ} → (A → B) → Option A → Option B
mapped f none = none
mapped f (some a) = some (f a)

abbrev pub signals_of : Option AnalysisResult → List String
signals_of none = []
signals_of (some a) = a.risk_signals

unfoldable pub verification_summary : AgentState → ReportStatus → VerificationSummary
verification_summary s status = record {
  action_id = mapped (λ (a : ActionProposal). a.id) s.proposed_action;
  capability = mapped (λ (a : ActionProposal). a.tool) s.proposed_action;
  target = mapped (λ (a : ActionProposal). a.target) s.proposed_action;
  environment = mapped (λ (a : ActionProposal). a.environment) s.proposed_action;
  validator_decision = decision_of s.validation;
  validator_reason = mapped (λ (v : ValidationResult). v.reason) s.validation;
  evidence_count = length s.evidence;
  evidence_types = unique (map (λ (e : Evidence). e.kind) s.evidence);
  decision_basis = decision_basis s status;
}

abbrev pub report_finding : Finding → ReportFinding
report_finding f = record {
  id = f.id;
  source = f.source;
  rule_id = f.rule_id;
  title = f.title;
  description = some f.description;
  severity = f.severity;
  service = f.service;
  file = f.file;
  line_start = f.line_start;
  line_end = f.line_end;
  pr_context = f.pr_context;
}

-- the gate on the raw levels of the state
unfoldable pub gate_of : AgentState → ReportStatus → FindingGateClassification
gate_of s status =
    classify_finding_gate s.finding.id (status_text status) (level_of s.context_priority)
      (severity_of s.cvss) (classification_of s.finding.pr_context)

abbrev pub impact_of : FindingGateClassification → CiGateImpact
impact_of g = record { effect = g.effect; category = g.category; reason = g.reason }

-- `build_final_report`; Python's `str` of a value that is no text is the second parameter
unfoldable pub build_final_report : Patterns → (Value → String) → AgentState → FinalReport
build_final_report rx print s =
    let status = report_status s.status in
    record {
      finding_id = s.finding.id;
      finding = report_finding s.finding;
      status = status;
      analysis_summary = mapped (λ (a : AnalysisResult). a.summary) s.analysis;
      risk_signals = signals_of s.analysis;
      code_context = s.code_context;
      architecture_context = s.architecture_context;
      hypothesis = mapped (λ (h : Hypothesis). h.statement) s.hypothesis;
      hypothesis_confidence = mapped (λ (h : Hypothesis). h.confidence) s.hypothesis;
      verification = verification_summary s status;
      cvss = s.cvss;
      context_priority = s.context_priority;
      evidence = s.evidence;
      sandbox_actions = sandbox_actions rx print s;
      policy_decisions = policy_decisions s;
      agent_decisions = s.decision_history;
      ci_gate_impact = some (impact_of (gate_of s status));
      explanation = explanation_of status;
      limitations = limitations s status;
      next_step = next_step_of status;
      iterations = s.iteration_count;
      stop_reason = s.stop_reason;
    }
