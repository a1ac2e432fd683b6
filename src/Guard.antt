-- ===== src/Guard.antt =====
-- evidence/guard.py: the verdict that the stored evidence of the last action gives.
pub mod Verdicts
pub mod Failures
use Prim.Native.String.{◌++◌}
use cft_security_agent.Prelude.{
  ℕ, String, Bool, true, false, not, ◌&&◌, ◌||◌, Option, some, none, List, [], ◌∷◌, max, leb, ◌==◌,
  nat_eq, text_eq, if◌then◌else◌, or_default, any, includes, lower,
}
use cft_security_agent.Schemas.Execution.{
  ErrorCode, timeout, build_failed, ExecutionResult, ErrorDetail, is_completed, is_denied,
}
use cft_security_agent.Schemas.Evidence.{Evidence, Verdict, Reliability, high, medium}
use cft_security_agent.Schemas.AgentLoop.{
  StopReason, terminal_evidence, execution_timeout, build_failure, unsupported_runtime,
  isolation_or_policy_blocked, execution_failed, insufficient_evidence, Outcome, confirmed,
  rejected, inconclusive, continue,
}
use cft_security_agent.Schemas.State.{AgentState}

pub record GuardDecision : Type 0 where
  pub status : Outcome
  pub explanation : String
  pub stop_reason : Option StopReason

-- `max_steps`, else `max_iterations`, else 2, and at least 1
unfoldable pub step_limit : AgentState → ℕ
step_limit s = max 1 (or_default s.max_steps (or_default s.max_iterations 2))

unfoldable pub step_limit_reached : AgentState → Bool
unfolding step_limit
step_limit_reached s = leb (step_limit s) s.iteration_count

-- A reason without a text of its own is a `KeyError` in the source and is never passed.
unfoldable pub reason_explanation : StopReason → Bool → String
reason_explanation _ true = "Structured Evidence contains conflicting terminal verdicts."
reason_explanation execution_timeout false = "The bounded verification timed out."
reason_explanation build_failure false =
    "The target build failed before sufficient Evidence was collected."
reason_explanation unsupported_runtime false =
    "The required runtime is not supported by the approved sandbox."
reason_explanation isolation_or_policy_blocked false =
    "The verification was blocked by an isolation or policy boundary."
reason_explanation execution_failed false =
    "The approved verification did not complete successfully."
reason_explanation insufficient_evidence false =
    "Execution completed, but capability-specific Evidence is insufficient "
    ++ "for a terminal verdict."
reason_explanation _ false = ""

unfoldable pub continue_or_stop : AgentState → StopReason → Bool → GuardDecision
continue_or_stop s reason conflicting =
    if step_limit_reached s
    then record {
      status = inconclusive;
      explanation = reason_explanation reason conflicting;
      stop_reason = some reason;
    }
    else record {
      status = continue;
      explanation = reason_explanation reason conflicting;
      stop_reason = none;
    }

abbrev pub code_is : (ErrorCode → Bool) → Option ErrorDetail → Bool
code_is p none = false
code_is p (some e) = p e.code

abbrev pub is_timeout : ErrorCode → Bool
is_timeout ErrorCode.timeout = true
is_timeout _ = false

abbrev pub is_build_failed : ErrorCode → Bool
is_build_failed ErrorCode.build_failed = true
is_build_failed _ = false

abbrev pub is_unsupported : ErrorCode → Bool
is_unsupported ErrorCode.unsupported_runtime = true
is_unsupported _ = false

abbrev pub is_isolation : ErrorCode → Bool
is_isolation ErrorCode.isolation_blocked = true
is_isolation _ = false

abbrev message_of : Option ErrorDetail → String
message_of none = ""
message_of (some e) = e.message

abbrev boundary_markers : List String
boundary_markers = "security boundary" ∷ "isolation" ∷ "policy blocked" ∷ []

unfoldable pub names_boundary : ExecutionResult → Bool
names_boundary e =
    let message = lower (e.stderr ++ (" " ++ message_of e.error)) in
    any (λ marker. includes marker message) boundary_markers

unfoldable pub execution_reason : ExecutionResult → StopReason
execution_reason e =
    if e.timed_out || code_is is_timeout e.error
    then execution_timeout
    else if code_is is_build_failed e.error
    then build_failure
    else if code_is is_unsupported e.error
    then unsupported_runtime
    else if code_is is_isolation e.error
    then isolation_or_policy_blocked
    else if is_denied e.status || names_boundary e
    then isolation_or_policy_blocked
    else execution_failed

abbrev pub is_reliable : Reliability → Bool
is_reliable high = true
is_reliable medium = true
is_reliable _ = false

abbrev pub is_confirmed : Option Verdict → Bool
is_confirmed (some Verdict.confirmed) = true
is_confirmed _ = false

abbrev pub is_rejected : Option Verdict → Bool
is_rejected (some Verdict.rejected) = true
is_rejected _ = false

-- the verdict is a member of the set `terminal`
unfoldable pub has_terminal : (Option Verdict → Bool) → String → List Evidence → Bool
has_terminal p action_id [] = false
has_terminal p action_id (e ∷ es) =
    (e.action_id == action_id && p e.verdict && is_reliable e.reliability)
    || has_terminal p action_id es

abbrev is_final : StopReason → Bool
is_final build_failure = true
is_final unsupported_runtime = true
is_final isolation_or_policy_blocked = true
is_final _ = false

unfoldable pub after_failure : AgentState → ExecutionResult → GuardDecision
after_failure s e =
    let reason = execution_reason e in
    if is_final reason
    then record {
      status = inconclusive;
      explanation = reason_explanation reason false;
      stop_reason = some reason;
    }
    else continue_or_stop s reason false

unfoldable pub after_success : AgentState → String → GuardDecision
after_success s action_id =
    let confirms = has_terminal is_confirmed action_id s.evidence in
    let rejects = has_terminal is_rejected action_id s.evidence in
    if confirms && not rejects
    then record {
      status = confirmed;
      explanation = "Capability-specific structured Evidence confirmed the finding.";
      stop_reason = some terminal_evidence;
    }
    else if rejects && not confirms
    then record {
      status = rejected;
      explanation = "Capability-specific structured Evidence rejected the finding.";
      stop_reason = some terminal_evidence;
    }
    else continue_or_stop s insufficient_evidence (confirms && rejects)

unfoldable pub succeeded : ExecutionResult → Bool
succeeded e = is_completed e.status && e.exit_code == 0

unfoldable pub evaluate_evidence : AgentState → Option GuardDecision
evaluate_evidence s = elim s.proposed_action [
  | none ↦ none
  | some action ↦ elim s.execution [
    | none ↦ none
    | some execution ↦
        some (if succeeded execution then after_success s action.id else after_failure s execution)
  ]
]
