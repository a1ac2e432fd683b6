-- ===== src/Guard/Failures.antt =====
-- What the guard makes of an action that did not run to exit code 0.
use cft_security_agent.Prelude.{
  ◌≡◌, ◌≢◌, ◌⊎◌, true, false, Option, some, none, arith, ltb, if◌then◌else◌,
}
use cft_security_agent.Schemas.Action.{ActionProposal}
use cft_security_agent.Schemas.Execution.{
  ErrorCode, ExecutionResult, ErrorDetail, completed, build_failed, unsupported_runtime,
  isolation_blocked,
}
use cft_security_agent.Schemas.AgentLoop.{inconclusive, continue, StopReason}
use cft_security_agent.Schemas.State.{AgentState}
use cft_security_agent.Guard.{
  GuardDecision, evaluate_evidence, after_failure, continue_or_stop, succeeded, step_limit,
  step_limit_reached, execution_reason,
}

-- An error with the code, in an execution that did not time out.
pub record EndedWith (x : ExecutionResult) (e : ErrorDetail) : Type 0 where
  pub error : x.error ≡ some e
  pub in_time : x.timed_out ≡ false

-- the errors that no further step can repair
abbrev pub fatal_reason : ErrorCode → Option StopReason
fatal_reason build_failed = some StopReason.build_failure
fatal_reason unsupported_runtime = some StopReason.unsupported_runtime
fatal_reason isolation_blocked = some StopReason.isolation_or_policy_blocked
fatal_reason _ = none

module _ (s : AgentState) (a : ActionProposal) (x : ExecutionResult) (d : GuardDecision)
    (proposed : s.proposed_action ≡ some a) (executed : s.execution ≡ some x)
    (decided : evaluate_evidence s ≡ some d)
    (failed : (x.status ≢ completed) ⊎ (x.exit_code ≢ 0)) where
  -- Where the execution did not time out, a failed build, an unsupported runtime and a blocked
  -- isolation boundary end the agent at once as inconclusive, with that reason, whatever the step
  -- limit.
  pub fatal_failure_stops :
      (e : ErrorDetail) (reason : StopReason)
      → EndedWith x e
      → fatal_reason e.code ≡ some reason
      → (d.status ≡ inconclusive) × (d.stop_reason ≡ some reason)
  unfolding evaluate_evidence after_failure continue_or_stop succeeded execution_reason
  fatal_failure_stops e reason h f = ground arith

  -- After a timeout the agent goes on while its step limit is not reached, and then stops with the
  -- timeout as its reason.
  pub timeout_retries :
      x.timed_out ≡ true
      → (d.status ≡ (if ltb s.iteration_count (step_limit s) then continue else inconclusive))
        × (d.stop_reason ≡ (
            if ltb s.iteration_count (step_limit s)
            then none
            else some StopReason.execution_timeout))
  unfolding evaluate_evidence after_failure continue_or_stop succeeded execution_reason
      step_limit_reached
  timeout_retries t = ground arith
