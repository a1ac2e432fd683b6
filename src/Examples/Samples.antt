-- ===== src/Examples/Samples.antt =====
-- Values that the examples share.
use cft_security_agent.Prelude.{String, false, some, none, [], ◌∷◌, List}
use cft_security_agent.Schemas.Finding.{Finding, ContextPriority}
use cft_security_agent.Schemas.Action.{ActionProposal, text}
use cft_security_agent.Schemas.Execution.{ExecutionResult, completed}
use cft_security_agent.Schemas.Evidence.{Evidence, Verdict, high, runtime}
use cft_security_agent.Schemas.Target.{TargetProfile}
use cft_security_agent.Schemas.Report.{FinalReport, ReportStatus, not_run, workflow_state}
use cft_security_agent.Schemas.AgentLoop.{Hypothesis}
use cft_security_agent.Schemas.State.{AgentState}
use cft_security_agent.Redaction.{Patterns}

-- patterns that find nothing
abbrev pub unchanged : Patterns
unchanged = record {
  basic_auth_url = λ s. s;
  bearer = λ s. s;
  json_secret = λ s. s;
  key_value_secret = λ s. s;
  posix_home = λ s. s;
  windows_home = λ s. s;
}

abbrev pub a_finding : Finding
a_finding = record {
  id = "f-1";
  source = "semgrep";
  rule_id = "python.password";
  title = "password";
  description = "a password is stored unsafely";
  file = "auth/models.py";
  line_start = some 3;
  line_end = none;
  severity = some "ERROR";
  service = none;
  pr_context = none;
}

abbrev pub high_priority : ContextPriority
high_priority = record { level = "High"; score = some 14; reasons = [] }

abbrev pub report_of : String → ReportStatus → FinalReport
report_of id status = record {
  finding_id = id;
  finding = record {
    id = id;
    source = "semgrep";
    rule_id = "python.password";
    title = "password";
    description = none;
    severity = some "ERROR";
    service = none;
    file = "auth/models.py";
    line_start = some 3;
    line_end = none;
    pr_context = none;
  };
  status = status;
  analysis_summary = none;
  risk_signals = [];
  code_context = none;
  architecture_context = none;
  hypothesis = none;
  hypothesis_confidence = none;
  verification = record {
    action_id = none;
    capability = none;
    target = none;
    environment = none;
    validator_decision = not_run;
    validator_reason = none;
    evidence_count = 0;
    evidence_types = [];
    decision_basis = workflow_state;
  };
  cvss = none;
  context_priority = some high_priority;
  evidence = [];
  sandbox_actions = [];
  policy_decisions = [];
  agent_decisions = [];
  ci_gate_impact = none;
  explanation = "";
  limitations = [];
  next_step = "";
  iterations = 0;
  stop_reason = none;
}

abbrev pub an_action : ActionProposal
an_action = record {
  id = "act-1";
  tool = "inspect_python_password_assignment";
  target = "shop";
  environment = "local";
  iteration = 1;
  parameters = ("artifact_id", text "models") ∷ [];
  purpose = "check the assignment";
  expected_evidence = "the assignment of the password";
  service = none;
  endpoint = none;
}

abbrev pub an_execution : ExecutionResult
an_execution = record {
  run_id = "run-1";
  action_id = "act-1";
  status = completed;
  exit_code = 0;
  stdout = "{}";
  stderr = "";
  timed_out = false;
  evidence_ref = "execution-1";
  audit_ref = "audit:run-1";
  artifacts = [];
  duration_ms = 12;
  error = none;
}

abbrev pub a_profile : TargetProfile
a_profile = record {
  id = "shop";
  environment = "local";
  repository_path = some "/srv/shop";
  base_url = none;
  compose_file = some "compose.yml";
  services =
      (
        "api",
        record {
          id = "api";
          root = "api";
          compose_service = none;
          healthcheck = none;
          kind = "web";
          internal_port = some 8000;
          runtime_endpoints = [];
          request_host = none;
        },
      )
      ∷ [];
  artifacts =
      (
        "models",
        record { id = "models"; kind = "python"; relative_path = "auth/models.py"; roles = [] },
      )
      ∷ [];
  metadata = [];
}

abbrev pub a_hypothesis : Hypothesis
a_hypothesis = record {
  id = "h-1";
  statement = "the password is stored as it is given";
  based_on = [];
  expected_evidence = "the assignment";
  confidence = 700;
}

-- A state in which the action has run and left one piece of evidence.
abbrev pub evidence_for : Verdict → Evidence
evidence_for verdict = record {
  id = "evidence-1";
  action_id = "act-1";
  kind = "python_password_assignment_check";
  summary = "";
  artifact_refs = [];
  reliability = high;
  verdict = some verdict;
  source = runtime;
  sandbox_session_id = some "s-1";
  hypothesis_id = "h-1";
  action = record { id = "act-1"; tool = "inspect_python_password_assignment"; run_id = none };
  observation = record { kind = "python_password_assignment_check"; facts = [] };
  scope = record {
    target = "shop";
    environment = "local";
    service = none;
    description = "one file";
  };
  artifacts = [];
}

abbrev pub a_state : List Evidence → ExecutionResult → AgentState
a_state evidence execution = record {
  target_profile = some a_profile;
  runtime_services = none;
  finding = a_finding;
  code_context = none;
  architecture_context = none;
  cvss = none;
  context_priority = none;
  analysis = none;
  hypothesis = some a_hypothesis;
  dynamic_plan = none;
  plan_history = [];
  plan_validation = none;
  proposed_action = some an_action;
  validation = none;
  execution = some execution;
  evidence = evidence;
  action_history = [];
  decision_history = [];
  status = none;
  stop_reason = none;
  iteration_count = 1;
  max_iterations = some 3;
  max_steps = some 3;
  started_at = some 0;
  wall_clock_budget = none;
  sandbox_session_id = none;
  final_report = none;
}
