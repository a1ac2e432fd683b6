-- ===== src/Examples/RunnerExamples.antt =====
-- A run of the sandbox runner at a concrete input.
use cft_security_agent.Prelude.{
  ℕ, false, some, none, List, ◌∷◌, [], ◌≡◌, ◌≤◌, refl, length, All, lookup, insert, join, words,
}
use cft_security_agent.Schemas.Action.{ActionProposal}
use cft_security_agent.Schemas.Execution.{ExecutionResult, denied}
use cft_security_agent.Executor.Policy.{endpoint_of, get, register}
use cft_security_agent.Executor.Approvals.{check, verdict_on}
use cft_security_agent.Executor.Capabilities.{new_registry}
use cft_security_agent.Executor.Runner.{
  SandboxRunner, SandboxRunResult, SandboxActionResult, run, runner_error, take_turn, continue_with,
  run_actions, run_status, bounded_output, runtime_problem,
}
use cft_security_agent.Executor.Runner.Sequence.{WasChecked, completed_run_checked}
use cft_security_agent.Redaction.{redact_error_message, substitute, without_traceback}
use cft_security_agent.Examples.Samples.{unchanged, an_action, an_execution}
use cft_security_agent.Examples.ExecutorExamples.{purpose_of, approved_act, tools_of}

abbrev a_refusal : ExecutionResult
a_refusal = record {
  run_id = "run-1";
  action_id = "act-1";
  status = denied;
  exit_code = 126;
  stdout = "";
  stderr = "";
  timed_out = false;
  evidence_ref = "execution-2";
  audit_ref = "audit:run-1";
  artifacts = [];
  duration_ms = 0;
  error = none;
}

abbrev a_runner : SandboxRunner ℕ
a_runner = record {
  patterns = unchanged;
  digest = purpose_of;
  approvals = ("act-1", approved_act) ∷ [];
  registry = tools_of (new_registry (λ v. ""));
  execute = λ action session n. (some an_execution, n);
  deny_one = λ action reason late. a_refusal;
  max_actions = 8;
  sequence_timeout = 30000000;
}

abbrev an_action_result : SandboxActionResult
an_action_result = record {
  session_id = none;
  runtime_instance_id = none;
  run_id = "run-1";
  action_id = "act-1";
  tool = "inspect_python_password_assignment";
  service = none;
  status = an_execution.status;
  stdout = "{}";
  stderr = "";
  exit_code = 0;
  timed_out = false;
  duration_ms = 12;
  evidence_ref = "execution-1";
  execution = an_execution;
}

abbrev a_run : SandboxRunResult
a_run = record {
  run_id = "run-1";
  runtime_instance_id = none;
  status = an_execution.status;
  results = an_action_result ∷ [];
}

abbrev one_action : List (ℕ × ActionProposal)
one_action = (5, an_action) ∷ []

one_action-run : (run a_runner none "run-1" one_action 0).0 ≡ some a_run
unfolding run run_actions take_turn continue_with run_status runner_error check verdict_on lookup
    endpoint_of get new_registry register insert runtime_problem bounded_output redact_error_message
    substitute join words without_traceback
one_action-run = refl

completed_run_checked_example :
    (length one_action ≤ 8)
    × (length a_run.results ≡ length one_action)
    × All (WasChecked a_runner none (λ a reason late. refl)) one_action
completed_run_checked_example =
    completed_run_checked a_runner none (λ a reason late. refl) "run-1" one_action 0 a_run
      one_action-run refl
