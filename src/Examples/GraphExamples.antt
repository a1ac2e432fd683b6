-- ===== src/Examples/GraphExamples.antt =====
-- agent/graph.py with a model that always proposes the same check and an executor that runs it.
use cft_security_agent.Prelude.{
  ℕ, ◌≡◌, ◌≢◌, ◌⊎◌, refl, arith, true, false, some, none, [], ◌∷◌, All, lookup, strip, sorted,
  every_char, lower, ends_with,
}
use cft_security_agent.Schemas.AgentLoop.{DynamicPlan, continue}
use cft_security_agent.Schemas.Evidence.{Verdict}
use cft_security_agent.Schemas.State.{AgentState}
use cft_security_agent.Validator.Document.{from_document, valid_action_id}
use cft_security_agent.Interpreter.{StoredRecord, Readers}
use cft_security_agent.Agent.Outside.{Outside, AgentModel, AgentExecutor, return}
use cft_security_agent.Agent.Graph.{
  RunEnd, finished, raised, recursion_error, invoke, run, load_context, followed, along, successor,
  run_node,
}
use cft_security_agent.Agent.Nodes
use cft_security_agent.Agent.Nodes.Collect
use cft_security_agent.Agent.Loop.{budget_stop_reason, wall_clock_exhausted}
use cft_security_agent.Agent.Planning.{
  validate as validate_plan, validate_scope, steps_error, step_error, session_error,
}
use cft_security_agent.Agent.Context.{resolve_service, best_candidate, candidate}
use cft_security_agent.Validator.Parameters.{
  validate_parameters, contract_error, values_error, enum_error, lengths_error, lists_error,
  validate_registered_artifacts, artifacts_error,
}
use cft_security_agent.Validator.{validate, validate_request, validate_content}
use cft_security_agent.Guard.{step_limit, evaluate_evidence, after_success, succeeded, has_terminal}
use cft_security_agent.Scoring.{score}
use cft_security_agent.Executor.Approvals.{record_approval}
use cft_security_agent.Interpreter.{
  build_evidence, structured_evidence, plain_evidence, evidence_with,
}
use cft_security_agent.Agent.Graph.Progress.{graph_ends}
use cft_security_agent.Agent.Graph.Ending.{graph_reports, IsReported}
use cft_security_agent.Agent.Graph.Approved.{graph_executes_approved, IsLawful}
use cft_security_agent.Examples.Samples.{
  unchanged, an_action, an_execution, a_profile, a_hypothesis, a_state,
}
use cft_security_agent.Examples.PolicyExamples.{a_policy}

abbrev one_plan : DynamicPlan
one_plan = record {
  id = "p-1";
  target = "shop";
  environment = "local";
  hypothesis_id = "h-1";
  goal = "check the password";
  max_steps = 1;
  sandbox_session_id = none;
  continuation_reason = "first step";
  stop_conditions = [];
  steps =
      record {
        index = 1;
        action = an_action;
        expected_observation = "the assignment";
        continue_if = "nothing is found";
      }
      ∷ [];
}

abbrev a_model : AgentModel ℕ
a_model = record {
  analyse = λ s. return (record { summary = "a"; risk_signals = []; needs_verification = true });
  form_hypothesis = λ s a. return a_hypothesis;
  build_plan = λ s a h. return one_plan;
  reevaluate = λ s. return (record { status = continue; explanation = "more" });
}

abbrev an_executor : AgentExecutor ℕ
an_executor = record {
  digest = λ a. a.id;
  is_active = λ w. false;
  from_config = λ profile backend approvals. return tt;
  record_approval = λ a v. return tt;
  open_managed_lab = λ runtime profile. return tt;
  execute = λ a. return an_execution;
  execute_sequence = λ a runtime. return (an_execution ∷ []);
}

abbrev pub a_record : StoredRecord
a_record = record {
  run_id = some "run-1";
  action_id = some "act-1";
  session_id = some "s-1";
  status = some "completed";
  exit_code = some 0;
  stdout = some "{}";
  stderr = some "";
}

abbrev pub some_readers : Readers
some_readers = record {
  patterns = unchanged;
  print = λ v. "";
  parse_check = λ tool s. some (record {
    verdict = Verdict.confirmed;
    explanation = "the password is assigned without validation";
    scope = "one file";
    facts = [];
  });
  parse_surface = λ s. none;
}

abbrev outside : Outside ℕ
outside = record {
  max_iterations = 5;
  wall_clock = 120000000;
  target = some a_profile;
  policy = some a_policy;
  patterns = unchanged;
  print = λ v. "";
  readers = some_readers;
  normalize_path = λ s. some s;
  parts = λ s. 1;
  check_cancelled = return tt;
  now = λ w. (w, w);
  fresh_ids = λ w. (λ s. s, w);
  get_execution = λ ref w. some a_record;
  model = a_model;
  agent_executor = an_executor;
}

abbrev start : AgentState
start = record (a_state [] an_execution) {
  iteration_count = 0;
  execution = none;
  proposed_action = none;
  hypothesis = none;
}

graph_ends_example : run outside 68 load_context start 0 ≢ recursion_error
graph_ends_example = graph_ends outside 68 start 0 (omega arith)

graph_reports_example :
    (invoke outside start 0 ≡ raised)
    ⊎ ((s' : AgentState) × (w' : ℕ) × (invoke outside start 0 ≡ finished s' w')
        × IsReported outside s')
graph_reports_example = graph_reports outside start 0

abbrev state_of : RunEnd ℕ → AgentState
state_of (finished s w) = s
state_of raised = start
state_of recursion_error = start

abbrev final : AgentState
final = state_of (invoke outside start 0)

runs : invoke outside start 0 ≡ finished final 0
unfolding run followed along successor run_node Nodes.load_context Nodes.score_finding
    Nodes.guard_agent_budget Nodes.guarded Nodes.analyse Nodes.form_hypothesis Nodes.propose_action
    Nodes.proposed Nodes.validate_action Nodes.plan_denial Nodes.judged Nodes.service_of
    Collect.fresh_executor Collect.execute_action Collect.collect_evidence Collect.reevaluate
    Collect.build_report Collect.loaded_record Collect.sandbox_session Collect.session_of
    Collect.gathered Collect.recorded_action Collect.guard_decision Collect.artifact_refs
    budget_stop_reason wall_clock_exhausted step_limit validate_plan validate_scope steps_error
    step_error session_error validate validate_request validate_content validate_parameters
    contract_error values_error enum_error lengths_error lists_error validate_registered_artifacts
    artifacts_error from_document valid_action_id lookup strip sorted every_char ends_with
    record_approval build_evidence structured_evidence plain_evidence evidence_with
    evaluate_evidence after_success succeeded has_terminal score resolve_service best_candidate
    candidate lower
runs = refl

graph_executes_approved_example : All (IsLawful outside a_profile start 0) final.action_history
graph_executes_approved_example =
    graph_executes_approved outside a_profile start 0 final 0 refl refl runs
