-- ===== src/Gate/Decision.antt =====
-- pipeline/gate.py: one decision for the CI from the reports of a run and its errors.
use cft_security_agent.Prelude.{
  ℕ, suc, String, Bool, true, false, Option, some, none, List, [], ◌∷◌, ◌++◌, map, leb, ◌==◌,
  text_eq, if◌then◌else◌, length, non_empty, contains, lookup, upper,
}
use cft_security_agent.Schemas.Finding.{
  PrClassification, PrFindingContext, CvssResult, ContextPriority,
}
use cft_security_agent.Schemas.Execution.{ErrorDetail, internal_error, pipeline}
use cft_security_agent.Schemas.Report.{
  GateEffect, pass, warn, fail, GateDecisionBasis, no_blocking_condition, confirmed_risk_basis,
  policy_or_uncertainty, technical_pipeline_error, ReportStatus, status_text, confirmed, rejected,
  inconclusive, policy_blocked, FinalReport, PipelineFindingResult, GateResult,
}
use cft_security_agent.Redaction.{Patterns, redact}
use cft_security_agent.Gate.{classify_finding_gate}

abbrev pub decision_rank : GateEffect → ℕ
decision_rank pass = 0
decision_rank warn = 1
decision_rank fail = 2

-- `max(..., key=rank, default="pass")`: of equal ranks the first, which is the same effect
abbrev pub worse : GateEffect → GateEffect → GateEffect
worse a b = if leb (decision_rank b) (decision_rank a) then a else b

unfoldable pub worst : List GateEffect → GateEffect
worst [] = pass
worst (e ∷ es) = worse e (worst es)

-- `list(dict.fromkeys(texts))`
unfoldable pub unique_from : List String → List String → List String
unique_from seen [] = []
unique_from seen (s ∷ ss) =
    let repeated = unique_from seen ss in
    let fresh = s ∷ unique_from (s ∷ seen) ss in if contains s seen then repeated else fresh

unfoldable pub unique : List String → List String
unfolding unique_from
unique ss = unique_from [] ss

abbrev pub level_of : Option ContextPriority → Option String
level_of none = none
level_of (some p) = some p.level

abbrev pub severity_of : Option CvssResult → Option String
severity_of none = none
severity_of (some c) = some c.severity

abbrev pub classification_of : Option PrFindingContext → Option PrClassification
classification_of none = none
classification_of (some c) = some c.classification

abbrev pub upper_of : Option String → Option String
upper_of none = none
upper_of (some s) = some (upper s)

unfoldable pub classify_report : FinalReport → Option String → PipelineFindingResult
classify_report report report_path =
    let context_level = upper_of (level_of report.context_priority) in
    let cvss_severity = upper_of (severity_of report.cvss) in
    let classification =
      classify_finding_gate report.finding_id (status_text report.status) context_level
        cvss_severity (classification_of report.finding.pr_context) in
    record {
      finding_id = report.finding_id;
      status = report.status;
      gate_effect = classification.effect;
      category = classification.category;
      reason = classification.reason;
      report_path = report_path;
      context_priority = context_level;
      cvss_severity = cvss_severity;
    }

unfoldable pub classify_reports :
    List (String × String) → List FinalReport → List PipelineFindingResult
classify_reports paths [] = []
classify_reports paths (r ∷ rs) =
    classify_report r (lookup r.finding_id paths) ∷ classify_reports paths rs

abbrev pub status_beq : ReportStatus → ReportStatus → Bool
status_beq s t = status_text s == status_text t

-- `Counter(report.status for report in reports)[status]`
unfoldable pub count_status : ReportStatus → List FinalReport → ℕ
count_status status [] = 0
count_status status (r ∷ rs) =
    let n = count_status status rs in if status_beq r.status status then suc n else n

abbrev is_pass : GateEffect → Bool
is_pass pass = true
is_pass _ = false

unfoldable pub warnings : List PipelineFindingResult → List String
warnings [] = []
warnings (f ∷ fs) =
    let rest = warnings fs in if is_pass f.gate_effect then rest else f.reason ∷ rest

abbrev stage_error : Patterns → String → ErrorDetail
stage_error rx message = record {
  code = internal_error;
  layer = pipeline;
  message = redact rx message;
  retryable = false;
}

-- `errors` and `stage_errors` joined, as the gate builds them
unfoldable pub structured : Patterns → List ErrorDetail → List String → List ErrorDetail
structured rx errors stage_errors = errors ++ map (stage_error rx) stage_errors

abbrev pub basis_of : GateEffect → GateDecisionBasis
basis_of fail = confirmed_risk_basis
basis_of warn = policy_or_uncertainty
basis_of pass = no_blocking_condition

abbrev pub code_of : GateEffect → ℕ
code_of fail = 1
code_of _ = 0

-- The model's validator fills `stage_errors` with the messages of the errors.
unfoldable pub evaluate_gate :
    Patterns
    → List FinalReport
    → List ErrorDetail
    → List String
    → List (String × String)
    → GateResult
evaluate_gate rx reports errors stage_errors paths =
    let structured_errors = structured rx errors stage_errors in
    let failed = non_empty structured_errors in
    let finding_results = classify_reports paths reports in
    let decision =
      if failed
      then fail
      else worst (map (λ (f : PipelineFindingResult). f.gate_effect) finding_results) in
    let reasons = unique (warnings finding_results) in
    record {
      decision = decision;
      exit_code = if failed then 2 else code_of decision;
      decision_basis = if failed then technical_pipeline_error else basis_of decision;
      reports_total = length reports;
      confirmed_count = count_status confirmed reports;
      rejected_count = count_status rejected reports;
      inconclusive_count = count_status inconclusive reports;
      policy_blocked_count = count_status policy_blocked reports;
      technical_errors = length structured_errors;
      reasons =
          if failed
          then "A mandatory pipeline stage did not complete successfully." ∷ reasons
          else reasons;
      errors = structured_errors;
      stage_errors = map (λ (e : ErrorDetail). e.message) structured_errors;
      findings = finding_results;
    }
