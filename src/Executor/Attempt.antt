-- ===== src/Executor/Attempt.antt =====
-- executor/executor.py (_execute_one): one approved action, from the check of the approval to the
-- result of the sandbox.
pub mod Flow
pub mod Permits
pub mod Admission
use Prim.Native.String.{◌++◌}
use cft_security_agent.Prelude.{
  ℕ, ◌*◌, ◌/◌, max, String, Bool, true, false, not, ◌&&◌, ◌||◌, Option, some, none, List, ◌∷◌, [],
  if◌then◌else◌, ◌==◌, text_eq, nat_eq, includes, lower, lookup, or_default, map,
}
use cft_security_agent.Schemas.Action.{Value, ActionProposal}
use cft_security_agent.Schemas.Execution.{
  ErrorDetail, ExecutionStatus, ExecutionResult, completed, failed, denied, execution_failed,
  validation_error, isolation_blocked, executor,
}
use cft_security_agent.Schemas.Target.{
  TargetArtifact, TargetProfile, RuntimeService, RuntimeServiceMap,
}
use cft_security_agent.Redaction.{Patterns, redact_error_message}
use cft_security_agent.Validator.Parameters.{Parameters}
use cft_security_agent.Executor.Policy.{
  SandboxPolicy, ToolRegistry, get, endpoint_of, validate_target_environment,
}
use cft_security_agent.Executor.Approvals.{ApprovalStore, check}
use cft_security_agent.Executor.Limiter.{RunLimiter, acquire, release}
use cft_security_agent.Executor.Capabilities.{
  NetworkAccess, without_network, target_network, reaches_target, network_access, repository_access,
  Checked, accepted, refused, raised, Handler,
}
use cft_security_agent.Executor.Finish.{Storage, Ending, finish, system_error}

-- executor/sandbox.py; the timeout is in microseconds
pub record SandboxRequest : Type 0 where
  pub run_id : String
  pub tool : String
  pub base_url : String
  pub parameters : Parameters
  pub request_timeout : ℕ
  pub endpoint : Option String
  pub request_host : Option String
  pub network : NetworkAccess
  pub repository_path : String
  pub artifacts : List (String × (String × String))

pub record SandboxResult : Type 0 where
  pub run_id : String
  pub exit_code : ℕ
  pub stdout : String
  pub stderr : String
  pub timed_out : Bool
  pub workspace_id : String
  pub duration_ms : ℕ
  pub runtime_backend : String

-- what `self._sandbox.run` does: it returns, raises `RunCancelled`, or another exception
pub data SandboxOutcome : Type 0 where
  returned : SandboxResult → SandboxOutcome
  cancelled crashed : SandboxOutcome

-- The executor; the sandbox, the digest and the storage are code outside this part.
pub record SafeExecutor : Type 0 where
  pub patterns : Patterns
  pub digest : ActionProposal → String
  pub approvals : ApprovalStore
  pub targets : List (String × TargetProfile)
  pub storage : Storage
  pub policy : SandboxPolicy
  pub registry : ToolRegistry Handler
  pub is_docker_sandbox : Bool
  pub run_sandbox : SandboxRequest → SandboxOutcome
  pub active_services : Option RuntimeServiceMap
  pub duration_ms : ℕ

-- What an attempt leaves: its result, `none` where an exception leaves the method, the limiter,
-- and what was sent to the sandbox.
pub record Attempt : Type 0 where
  pub result : Option ExecutionResult
  pub limiter : RunLimiter
  pub requests : List SandboxRequest

-- `_sandbox_result_error`
unfoldable pub sandbox_result_error : Patterns → SandboxResult → Option ErrorDetail
sandbox_result_error rx r =
    if r.runtime_backend == "docker"
      && (includes "docker container launch failed" (lower r.stderr)
          || includes "docker exec failed" (lower r.stderr))
    then some (
        system_error rx isolation_blocked executor "Docker sandbox could not be launched safely"
          false)
    else none

abbrev pub is_command : String → Bool
is_command tool = tool == "sandbox_command"

-- `first or second`, where the empty text counts as absent
abbrev pub or_else : Option String → Option String → Option String
or_else none second = second
or_else (some s) second = if s == "" then second else some s

-- `TargetProfile.base_url`, whose `ValueError` is `none`
unfoldable pub target_url : TargetProfile → NetworkAccess → Option String
target_url target without_network = some ""
target_url target target_network = or_else target.base_url none

-- `base_url` and `request_host`; a service that the map does not have is a `KeyError`
unfoldable pub address_of :
    String → Option RuntimeServiceMap → Option String → Option (String × Option String)
address_of url none service = some (url, none)
address_of url (some m) none = some (url, none)
address_of url (some m) (some name) = elim (lookup name m.services) [
  | none ↦ none
  | some s ↦ some (s.address, s.request_host)
]

abbrev pub payload_of : String × TargetArtifact → String × (String × String)
payload_of (id, a) = (id, (a.kind, a.relative_path))

module _ (ex : SafeExecutor) (action : ActionProposal) (run_id : String) where
  abbrev request_with :
      TargetProfile
      → NetworkAccess
      → Bool
      → Parameters
      → Option String
      → String × Option String
      → SandboxRequest
  request_with target network repository parameters contract_endpoint address = record {
    run_id = run_id;
    tool = action.tool;
    base_url = address.0;
    parameters = parameters;
    request_timeout = max 100000 (ex.policy.limits.wall_time * 8 / 10);
    endpoint = or_else contract_endpoint action.endpoint;
    request_host = address.1;
    network = network;
    repository_path = if repository then or_default target.repository_path "" else "";
    artifacts = map payload_of target.artifacts;
  }

  -- the request, or `none` where building it raises an exception
  unfoldable pub build_request :
      TargetProfile → NetworkAccess → Bool → Parameters → Option SandboxRequest
  build_request target network repository parameters = elim (target_url target network) [
    | none ↦ none
    | some url ↦ elim (address_of url ex.active_services action.service) [
      | none ↦ none
      | some address ↦ elim (endpoint_of ex.registry action.tool) [
        | none ↦ none
        | some e ↦ some (request_with target network repository parameters e address)
      ]
    ]
  ]

  module _ (session_id : Option String) where
    abbrev pub ends : Ending → ExecutionResult
    ends e = finish ex.patterns ex.storage ex.policy ex.duration_ms action run_id session_id e

    abbrev pub denial : ℕ → String → String → Ending
    denial code stderr reason = record {
      status = denied;
      exit_code = code;
      decision_reason = reason;
      stdout = "";
      stderr = stderr;
      timed_out = false;
      workspace_id = "";
      error = none;
    }

    abbrev pub invalid_input : String → Ending
    invalid_input message = record {
      status = failed;
      exit_code = 2;
      decision_reason = "Capability input validation failed";
      stdout = "";
      stderr = message;
      timed_out = false;
      workspace_id = "";
      error = some (
          system_error ex.patterns validation_error executor "Capability input validation failed"
            false);
    }

    abbrev pub sandbox_crash : Ending
    sandbox_crash = record {
      status = failed;
      exit_code = 127;
      decision_reason = "Unexpected sandbox error";
      stdout = "";
      stderr = "Sandbox failed";
      timed_out = false;
      workspace_id = "";
      error =
          some
            (system_error ex.patterns execution_failed executor "Sandbox execution failed" false);
    }

    abbrev sandbox_ending : SandboxResult → String → String → Ending
    sandbox_ending r stdout stderr = record {
      status = if r.exit_code == 0 then completed else failed;
      exit_code = r.exit_code;
      decision_reason =
          if r.exit_code == 0 then "Sandbox execution completed" else "Sandbox execution failed";
      stdout = stdout;
      stderr = stderr;
      timed_out = r.timed_out;
      workspace_id = r.workspace_id;
      error = sandbox_result_error ex.patterns r;
    }

    -- the text of a command is redacted; the `ValueError` of a limit below 1 is `none`
    unfoldable pub bounded : String → Option String
    bounded s =
        if is_command action.tool
        then redact_error_message ex.patterns s ex.policy.limits.max_output_bytes
        else some s

    unfoldable pub sandbox_ended : SandboxResult → Option ExecutionResult
    sandbox_ended r = elim (bounded r.stdout) [
      | none ↦ none
      | some stdout ↦ elim (bounded r.stderr) [
        | none ↦ none
        | some stderr ↦ some (ends (sandbox_ending r stdout stderr))
      ]
    ]

    unfoldable pub after_sandbox : SandboxOutcome → Option ExecutionResult
    after_sandbox cancelled = none
    after_sandbox crashed = some (ends sandbox_crash)
    after_sandbox (returned r) = sandbox_ended r
