-- ===== src/Examples/ExecutorExamples.antt =====
-- The executor at concrete inputs.
use cft_security_agent.Prelude.{
  occurrences, ◌+◌, ◌≤◌, String, true, false, ◌&&◌, Option, some, none, List, ◌∷◌, [], ◌≡◌, ◌↔◌,
  refl, arith, is_some, if◌then◌else◌, ◌==◌, text_eq, strip, inr, lookup, insert, is_some,
}
use cft_security_agent.Schemas.Action.{
  Value, ActionProposal, ValidationResult, text, array, item, no_items,
}
use cft_security_agent.Schemas.Execution.{is_completed, completed}
use cft_security_agent.Agent.Planning.{sandbox_command_error}
use cft_security_agent.Executor.Policy.{
  endpoint_of, get, register, validate_target_environment, SandboxPolicy, SandboxLimits, process,
  no_network, ToolRegistry,
}
use cft_security_agent.Executor.Approvals.{
  ApprovalRecord, record_approval, verdict_on, check, record-check,
}
use cft_security_agent.Executor.Limiter.{acquire, new_limiter, reserve, take_permit, runs_of}
use cft_security_agent.Executor.Limiter.Threads.{
  Threads, Step, reserves, is_granted, start, begin, next, limits_hold,
}
use cft_security_agent.Executor.Capabilities.{
  artifact_id_parameter, Handler, new_registry, sandbox_command_parameters,
}
use cft_security_agent.Executor.Capabilities.Agreement.{is_accepted, commands_agree}
use cft_security_agent.Executor.Finish.{Storage, Ending, as_given, finish}
use cft_security_agent.Executor.Finish.Records.{
  audit_answer, completed_iff_recorded, is_explained, failure_is_explained,
}
use cft_security_agent.Executor.Attempt.{
  build_request, target_url, address_of, SafeExecutor, SandboxRequest, SandboxResult, returned,
}
use cft_security_agent.Executor.Attempt.Flow.{
  execute_one, with_target, with_parameters, after_grant, sent,
}
use cft_security_agent.Executor.Attempt.Permits.{permits_restored}
use cft_security_agent.Executor.Attempt.Admission.{IsAdmitted, sandbox_iff_IsAdmitted}
use cft_security_agent.Examples.Samples.{unchanged, an_action, a_profile}

abbrev limits : SandboxLimits
limits = record {
  wall_time = 5000000;
  cpu_time_seconds = 2;
  memory_bytes = 268435456;
  max_file_bytes = 1048576;
  max_processes = 8;
  max_output_bytes = 16384;
  tmpfs_size_bytes = 67108864;
  umask = 63;
  max_cpus = 1000;
}

abbrev pub sandbox_policy : SandboxPolicy
sandbox_policy = record {
  backend = process;
  network_mode = no_network;
  allowed_internal_network = "cft_internal_security_net";
  allowed_environments = "local" ∷ [];
  limits = limits;
  sandbox_image = "";
  container_user = "65534:65534";
  fail_closed = true;
}

-- a store whose log is full
abbrev pub full_log : Storage
full_log = record {
  put_execution = λ p. some ("execution-1", "evidence/execution-1.json");
  append = λ p ref. none;
  put_again = λ p. none;
  fresh_id = "0";
  next_fresh_id = "1";
}

abbrev finished : Ending
finished = record {
  status = completed;
  exit_code = 0;
  decision_reason = "Sandbox execution completed";
  stdout = "{}";
  stderr = "";
  timed_out = false;
  workspace_id = "w";
  error = none;
}

completed_iff_recorded_example :
    is_completed
      (finish unchanged full_log sandbox_policy 12 an_action "run-1" none finished).status
    ≡ (is_completed finished.status
        && is_some (
            audit_answer unchanged full_log sandbox_policy 12 an_action "run-1" none
              (as_given unchanged finished)
              (some ("execution-1", "evidence/execution-1.json"))))
completed_iff_recorded_example =
    completed_iff_recorded unchanged full_log sandbox_policy 12 an_action "run-1" none finished

failure_is_explained_example :
    is_explained
      (finish unchanged full_log sandbox_policy 12 an_action "run-1" none finished).status
      (finish unchanged full_log sandbox_policy 12 an_action "run-1" none finished).error
    ≡ true
failure_is_explained_example =
    failure_is_explained unchanged full_log sandbox_policy 12 an_action "run-1" none finished

abbrev list_command : List (String × Value)
list_command = ("argv", array (item (text "ls") no_items)) ∷ ("cwd", text "/target") ∷ []

commands_agree_example :
    (is_accepted (sandbox_command_parameters list_command) ≡ true)
    ↔ (sandbox_command_error list_command ≡ none)
commands_agree_example = commands_agree list_command

-- a digest that reads the purpose only
abbrev pub purpose_of : ActionProposal → String
purpose_of a = a.purpose

abbrev approval : ValidationResult
approval = record { approved = true; action_id = "act-1"; reason = "ok"; policy_rules = [] }

abbrev pub approved_act : ApprovalRecord
approved_act = record {
  action_id = "act-1";
  proposal_digest = "check the assignment";
  reason = "ok";
  policy_rules = [];
}

recorded_act :
    record_approval purpose_of an_action approval []
    ≡ inr (approved_act, ("act-1", approved_act) ∷ [])
unfolding record_approval insert
recorded_act = refl

record-check_example : check purpose_of an_action (("act-1", approved_act) ∷ []) ≡ (
    if an_action.id == an_action.id
    then if purpose_of an_action == purpose_of an_action
      then (true, "Approved proposal digest matches")
      else (false, "ActionProposal changed after approval")
    else check purpose_of an_action [])
record-check_example =
    record-check purpose_of an_action an_action approval []
      (approved_act, ("act-1", approved_act) ∷ []) recorded_act

abbrev one_waits : Threads
one_waits = record {
  limiter = record {
    max_runs_per_action = 1;
    max_concurrent_runs = 2;
    action_counts = ("act-1", 1) ∷ [];
    permits = 2;
  };
  waiting = "act-1" ∷ [];
  granted = [];
  active = 0;
}

abbrev one_runs : Threads
one_runs = record {
  limiter = record {
    max_runs_per_action = 1;
    max_concurrent_runs = 2;
    action_counts = ("act-1", 1) ∷ [];
    permits = 1;
  };
  waiting = [];
  granted = "act-1" ∷ [];
  active = 1;
}

first-Step : Step (start 1 2) one_waits
unfolding reserve runs_of new_limiter lookup insert
first-Step = reserves "act-1" refl refl refl refl

second-Step : Step one_waits one_runs
unfolding take_permit
second-Step = is_granted "act-1" [] [] refl refl refl refl refl

limits_hold_example :
    (occurrences "act-1" one_runs.granted ≤ 1)
    × (one_runs.active ≤ 2)
    × (one_runs.limiter.permits + one_runs.active ≡ 2)
limits_hold_example =
    limits_hold 1 2 one_runs "act-1"
      (next one_waits one_runs (next (start 1 2) one_waits begin first-Step) second-Step)

abbrev answer : SandboxResult
answer = record {
  run_id = "run-1";
  exit_code = 0;
  stdout = "{}";
  stderr = "";
  timed_out = false;
  workspace_id = "w";
  duration_ms = 10;
  runtime_backend = "process";
}

abbrev pub tools_of : Option (ToolRegistry Handler) → ToolRegistry Handler
tools_of none = record { tools = []; endpoints = [] }
tools_of (some r) = r

abbrev an_executor : SafeExecutor
an_executor = record {
  patterns = unchanged;
  digest = purpose_of;
  approvals = ("act-1", approved_act) ∷ [];
  targets = ("shop", a_profile) ∷ [];
  storage = full_log;
  policy = sandbox_policy;
  registry = tools_of (new_registry (λ v. ""));
  is_docker_sandbox = false;
  run_sandbox = λ r. returned answer;
  active_services = none;
  duration_ms = 12;
}

abbrev a_request : SandboxRequest
a_request = record {
  run_id = "run-1";
  tool = "inspect_python_password_assignment";
  base_url = "";
  parameters = ("artifact_id", text "models") ∷ [];
  request_timeout = 4000000;
  endpoint = none;
  request_host = none;
  network = cft_security_agent.Executor.Capabilities.without_network;
  repository_path = "/srv/shop";
  artifacts = ("models", ("python", "auth/models.py")) ∷ [];
}

sandbox_iff_IsAdmitted_example :
    ((execute_one an_executor an_action "run-1" none (new_limiter 1 1)).requests ≡ a_request ∷ [])
    ↔ IsAdmitted an_executor an_action "run-1" none (new_limiter 1 1) a_request
sandbox_iff_IsAdmitted_example =
    sandbox_iff_IsAdmitted an_executor an_action "run-1" none (new_limiter 1 1) a_request

-- the action reaches the sandbox with this request
request_sent :
    (execute_one an_executor an_action "run-1" none (new_limiter 1 1)).requests ≡ a_request ∷ []
unfolding execute_one with_target with_parameters after_grant sent build_request target_url
    address_of endpoint_of get new_registry register validate_target_environment
    artifact_id_parameter check verdict_on lookup insert new_limiter acquire reserve take_permit
    runs_of strip
request_sent = refl

one_permit : (new_limiter 1 1).permits ≤ (new_limiter 1 1).max_concurrent_runs
unfolding new_limiter
one_permit = omega arith

permits_restored_example :
    (execute_one an_executor an_action "run-1" none (new_limiter 1 1)).limiter.permits
    ≡ (new_limiter 1 1).permits
permits_restored_example =
    permits_restored an_executor an_action "run-1" none (new_limiter 1 1) one_permit
