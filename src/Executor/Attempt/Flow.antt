-- ===== src/Executor/Attempt/Flow.antt =====
-- executor/executor.py (_execute_one): the tests in their order, and the `finally` that gives the
-- permit back.
use Prim.Native.String.{◌++◌}
use cft_security_agent.Prelude.{
  String, not, ◌&&◌, Option, some, none, ◌∷◌, [], if◌then◌else◌, lookup,
}
use cft_security_agent.Schemas.Action.{ActionProposal}
use cft_security_agent.Schemas.Target.{TargetProfile}
use cft_security_agent.Executor.Policy.{get, validate_target_environment}
use cft_security_agent.Executor.Approvals.{check}
use cft_security_agent.Executor.Limiter.{RunLimiter, acquire, release}
use cft_security_agent.Executor.Capabilities.{
  network_access, repository_access, Checked, accepted, refused, raised,
}
use cft_security_agent.Validator.Parameters.{Parameters}
use cft_security_agent.Executor.Finish.{Ending}
use cft_security_agent.Executor.Attempt.{
  SafeExecutor, Attempt, SandboxRequest, build_request, ends, denial, invalid_input, sandbox_crash,
  after_sandbox, is_command,
}

module _ (ex : SafeExecutor) (action : ActionProposal) (run_id : String)
    (session_id : Option String) where
  abbrev pub stopped : RunLimiter → Ending → Attempt
  stopped l e = record {
    result = some (ends ex action run_id session_id e);
    limiter = l;
    requests = [];
  }

  abbrev pub refusal : RunLimiter → String → String → Attempt
  refusal l stderr reason = stopped l (denial ex action run_id session_id 126 stderr reason)

  -- the request is built and run; the limiter is released on every way out
  unfoldable pub sent : RunLimiter → Option SandboxRequest → Attempt
  sent l none = stopped (release l) (sandbox_crash ex action run_id session_id)
  sent l (some request) = record {
    result = after_sandbox ex action run_id session_id (ex.run_sandbox request);
    limiter = release l;
    requests = request ∷ [];
  }

  abbrev missing_policy : RunLimiter → Attempt
  missing_policy l =
      refusal (release l) ("Missing trusted capability policy for: " ++ action.tool)
        "Capability policy missing"

  -- the run is counted
  unfoldable pub after_grant : RunLimiter → TargetProfile → Parameters → Attempt
  after_grant l target parameters = elim (lookup action.tool network_access) [
    | none ↦ missing_policy l
    | some network ↦ elim (lookup action.tool repository_access) [
      | none ↦ missing_policy l
      | some repository ↦
          sent l (build_request ex action run_id target network repository parameters)
    ]
  ]

  unfoldable pub with_parameters : RunLimiter → TargetProfile → Checked → Attempt
  with_parameters l target (refused message) =
      stopped l (invalid_input ex action run_id session_id message)
  with_parameters l target raised = record { result = none; limiter = l; requests = [] }
  with_parameters l target (accepted parameters) =
      let taken = acquire l action.id in
      if not (taken.0.0)
      then stopped (taken.1) (denial ex action run_id session_id 75 (taken.0.1) (taken.0.1))
      else after_grant (taken.1) target parameters

  abbrev pub unknown_tool : String
  unknown_tool = "Unknown executor tool: " ++ action.tool

  unfoldable pub with_target : RunLimiter → TargetProfile → Attempt
  with_target l target = elim (validate_target_environment ex.policy target.environment) [
    | some e ↦ refusal l e e
    | none ↦ elim (get ex.registry action.tool) [
      | none ↦ refusal l unknown_tool "Unknown capability"
      | some handler ↦
          if is_command action.tool && not ex.is_docker_sandbox
          then refusal l "sandbox_command requires the Docker security boundary"
              "sandbox_command requires the Docker security boundary"
          else with_parameters l target (handler action.parameters)
    ]
  ]

  -- `_execute_one`
  unfoldable pub execute_one : RunLimiter → Attempt
  execute_one l =
      let verdict = check ex.digest action ex.approvals in
      if not (verdict.0)
      then refusal l (verdict.1) (verdict.1)
      else elim (lookup action.target ex.targets) [
        | none ↦ refusal l unknown_tool "Unknown capability"
        | some target ↦ with_target l target
      ]
