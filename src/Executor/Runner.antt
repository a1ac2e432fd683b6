-- ===== src/Executor/Runner.antt =====
-- executor/sandbox_runner.py: a sequence of actions, each checked again before it runs, which
-- stops at the first that is not completed.
pub mod Sequence
use Prim.Native.String.{◌++◌}
use cft_security_agent.Prelude.{
  ℕ, String, Bool, true, false, not, ◌&&◌, ◌||◌, Option, some, none, List, ◌∷◌, [], if◌then◌else◌,
  ◌==◌, text_eq, lookup, is_some, contains, includes, ltb, length, all, non_empty, or_default,
  take_chars,
}
use cft_security_agent.Schemas.Action.{ActionProposal}
use cft_security_agent.Schemas.Execution.{
  ExecutionStatus, ExecutionResult, completed, failed, denied, is_completed, is_denied,
}
use cft_security_agent.Schemas.Target.{RuntimeService, RuntimeServiceMap}
use cft_security_agent.Redaction.{Patterns, redact_error_message}
use cft_security_agent.Executor.Policy.{ToolRegistry, get, endpoint_of}
use cft_security_agent.Executor.Approvals.{ApprovalStore, check}
use cft_security_agent.Executor.Capabilities.{Handler}

-- schemas/sandbox_runner.py
pub record SandboxActionResult : Type 0 where
  pub session_id : Option String
  pub runtime_instance_id : Option String
  pub run_id : String
  pub action_id : String
  pub tool : String
  pub service : Option String
  pub status : ExecutionStatus
  pub stdout : String
  pub stderr : String
  pub exit_code : ℕ
  pub timed_out : Bool
  pub duration_ms : ℕ
  pub evidence_ref : String
  pub execution : ExecutionResult

pub record SandboxRunResult : Type 0 where
  pub run_id : String
  pub runtime_instance_id : Option String
  pub status : ExecutionStatus
  pub results : List SandboxActionResult

-- `_execute_one` with the state `S` that it changes, `none` where an exception leaves it, and
-- `_deny_one`. Times are in microseconds.
pub record SandboxRunner (S : Type 0) : Type 0 where
  pub patterns : Patterns
  pub digest : ActionProposal → String
  pub approvals : ApprovalStore
  pub registry : ToolRegistry Handler
  pub execute : ActionProposal → Option String → S → Option ExecutionResult × S
  pub deny_one : ActionProposal → String → Bool → ExecutionResult
  pub max_actions : ℕ
  pub sequence_timeout : ℕ

abbrev output_limit : ℕ
output_limit = 16384

-- `_bounded_output`; the limit is positive, so no error is raised
unfoldable pub bounded_output : Patterns → String → String
bounded_output rx value = or_default (redact_error_message rx value output_limit) ""

-- `address.startswith("http://") and "localhost" not in address`
abbrev pub is_sandbox_address : String → Bool
is_sandbox_address address = take_chars 7 address == "http://" && not (includes "localhost" address)

-- `contract_endpoint or action.endpoint`, looked up in the endpoints of the service
abbrev pub allows : List String → Option String → Option String → Bool
allows endpoints none none = false
allows endpoints none (some e) = contains e endpoints
allows endpoints (some c) none = if c == "" then false else contains c endpoints
allows endpoints (some c) (some e) = if c == "" then contains e endpoints else contains c endpoints

abbrev pub conflicts : Option String → Option String → Bool
conflicts (some c) (some e) = not (e == c)
conflicts _ _ = false

abbrev pub differs : Option String → Option String → Bool
differs (some c) (some e) = not (e == c)
differs (some c) none = true
differs none _ = false

-- the service is in the map, allows the endpoint and has a sandbox address
unfoldable pub service_problem :
    Option RuntimeService → Option String → Option String → Option String
service_problem none contract endpoint = some "Service is not ready in RuntimeServiceMap"
service_problem (some s) contract endpoint =
    if not (allows s.allowed_endpoints contract endpoint)
    then some "Endpoint is not allowed by RuntimeServiceMap"
    else if not (is_sandbox_address s.address)
    then some "Runtime service address is not a sandbox address"
    else none

abbrev pub service_in : Option RuntimeServiceMap → Option String → Option RuntimeService
service_in none name = none
service_in (some m) none = none
service_in (some m) (some name) = lookup name m.services

-- the tests on the contracted endpoint and on the runtime services
unfoldable pub runtime_problem :
    Option RuntimeServiceMap → Option String → ActionProposal → Option String
runtime_problem runtime contract action =
    if conflicts contract action.endpoint
    then some "Action endpoint does not match the capability contract"
    else if is_some runtime
        && (is_some contract && (not (is_some action.service) || differs contract action.endpoint))
    then some "Runtime capability requires its contracted service and endpoint"
    else if is_some action.endpoint || is_some action.service
    then service_problem (service_in runtime action.service) contract action.endpoint
    else none

abbrev pub needs_runtime : Option RuntimeServiceMap → ActionProposal → Bool
needs_runtime runtime action =
    not (is_some runtime) || (not (is_some action.service) || not (is_some action.endpoint))

module _ {S : Type 0} (runner : SandboxRunner S) (runtime : Option RuntimeServiceMap) where
  -- `_validate`, with `none` for the empty reason
  unfoldable pub runner_error : ActionProposal → Option String
  runner_error action =
      let verdict = check runner.digest action runner.approvals in
      if not (verdict.0) then some (verdict.1) else elim (endpoint_of runner.registry action.tool) [
        | none ↦ some ("Unknown executor tool: " ++ action.tool)
        | some contract ↦
            if action.tool == "sandbox_command"
              && (is_some action.service || is_some action.endpoint)
            then some "sandbox_command cannot request runtime network scope"
            else if action.tool == "observe_http_surface" && needs_runtime runtime action
            then some (
                "HTTP runtime observation requires a ready RuntimeServiceMap "
                ++ "and an approved service endpoint")
            else runtime_problem runtime contract action
      ]

  abbrev result_from : Option String → ActionProposal → ExecutionResult → SandboxActionResult
  result_from session_id action e = record {
    session_id = session_id;
    runtime_instance_id = none;
    run_id = e.run_id;
    action_id = action.id;
    tool = action.tool;
    service = action.service;
    status = e.status;
    stdout = bounded_output runner.patterns e.stdout;
    stderr = bounded_output runner.patterns e.stderr;
    exit_code = e.exit_code;
    timed_out = e.timed_out;
    duration_ms = e.duration_ms;
    evidence_ref = e.evidence_ref;
    execution = e;
  }

  -- `_denied`, with the callback that the executor passes, whose result has the run's id
  unfoldable pub refused_action : ActionProposal → String → Bool → SandboxActionResult
  refused_action action reason timed_out =
      result_from none action (runner.deny_one action reason timed_out)

  abbrev session_of : Option RuntimeServiceMap → Option String
  session_of none = none
  session_of (some m) = some m.session_id

  abbrev pub Progress : Type 0
  Progress = Option (List SandboxActionResult) × S

  abbrev put_first : SandboxActionResult → Progress → Progress
  put_first r (none, s) = (none, s)
  put_first r (some rs, s) = (some (r ∷ rs), s)

  -- after `_execute_one`: the rest of the sequence, where the result is completed
  unfoldable pub continue_with :
      ActionProposal → (S → Progress) → Option ExecutionResult × S → Progress
  continue_with action rest (none, s) = (none, s)
  continue_with action rest (some e, s) =
      if is_completed e.status
      then put_first (result_from (session_of runtime) action e) (rest s)
      else (some (result_from (session_of runtime) action e ∷ []), s)

  -- one turn of the loop, with whether the time is over and what `_validate` found
  unfoldable pub take_turn : ActionProposal → (S → Progress) → S → Bool → Option String → Progress
  take_turn action later s true error =
      (some (refused_action action "Sequence timeout exceeded" true ∷ []), s)
  take_turn action later s false (some reason) = (some (refused_action action reason false ∷ []), s)
  take_turn action later s false none =
      continue_with action later (runner.execute action (session_of runtime) s)

  -- the loop over the actions, each with the time that has passed when it is reached
  unfoldable pub run_actions : List (ℕ × ActionProposal) → S → Progress
  run_actions [] s = (some [], s)
  run_actions ((elapsed, action) ∷ rest) s =
      take_turn action (run_actions rest) s (ltb runner.sequence_timeout elapsed)
        (runner_error action)

  abbrev pub has_completed : SandboxActionResult → Bool
  has_completed r = is_completed r.status

  abbrev first_denied : List SandboxActionResult → Bool
  first_denied [] = false
  first_denied (r ∷ rs) = is_denied r.status

  unfoldable pub run_status : List SandboxActionResult → ExecutionStatus
  run_status results =
      if first_denied results
      then denied
      else if non_empty results && all has_completed results
      then completed
      else failed

  abbrev pub with_results : String → ExecutionStatus → List SandboxActionResult → SandboxRunResult
  with_results run_id status results = record {
    run_id = run_id;
    runtime_instance_id = none;
    status = status;
    results = results;
  }

  abbrev first_refusal : List (ℕ × ActionProposal) → List SandboxActionResult
  first_refusal [] = []
  first_refusal ((t, a) ∷ rest) = refused_action a "Sequence action limit exceeded" false ∷ []

  abbrev closed : String → Progress → Option SandboxRunResult × S
  closed run_id (none, s) = (none, s)
  closed run_id (some results, s) = (some (with_results run_id (run_status results) results), s)

  -- `run`
  unfoldable pub run : String → List (ℕ × ActionProposal) → S → Option SandboxRunResult × S
  run run_id actions s =
      if ltb runner.max_actions (length actions)
      then (some (with_results run_id denied (first_refusal actions)), s)
      else closed run_id (run_actions actions s)
