-- ===== src/Examples/GuardExamples.antt =====
-- evidence/guard.py and agent/loop.py at concrete inputs.
use cft_security_agent.Prelude.{
  ◌<◌, ◌≡◌, ◌↔◌, refl, inr, true, false, some, none, [], ◌∷◌, arith, Some, ltb, if◌then◌else◌,
}
use cft_security_agent.Schemas.Execution.{
  ExecutionResult, ErrorDetail, completed, failed, build_failed, executor,
}
use cft_security_agent.Schemas.Evidence.{Verdict}
use cft_security_agent.Schemas.AgentLoop.{
  confirmed, rejected, inconclusive, continue, StopReason, ReevaluationResult,
}
use cft_security_agent.Schemas.State.{AgentState}
use cft_security_agent.Guard.{
  GuardDecision, evaluate_evidence, after_success, after_failure, continue_or_stop, succeeded,
  has_terminal, step_limit, step_limit_reached, execution_reason, reason_explanation,
}
use cft_security_agent.Guard.Verdicts.{Supports, confirmed_iff, rejected_iff, continue_below_limit}
use cft_security_agent.Guard.Failures.{fatal_failure_stops, timeout_retries}
use cft_security_agent.Agent.Loop.{apply_budget_to_reevaluation, wall_clock_exhausted}
use cft_security_agent.Agent.Loop.Budget.{
  continue_iff_in_budget, budget_keeps_verdicts, wall_clock_monotone,
}
use cft_security_agent.Examples.Samples.{an_action, an_execution, evidence_for, a_state}

abbrev proven : AgentState
proven = a_state (evidence_for Verdict.confirmed ∷ []) an_execution

abbrev confirms : GuardDecision
confirms = record {
  status = confirmed;
  explanation = "Capability-specific structured Evidence confirmed the finding.";
  stop_reason = some StopReason.terminal_evidence;
}

proven-confirms : evaluate_evidence proven ≡ some confirms
unfolding evaluate_evidence after_success succeeded has_terminal
proven-confirms = refl

confirmed_iff_example : (confirms.status ≡ confirmed) ↔ (
    (an_execution.status ≡ completed)
    × (an_execution.exit_code ≡ 0)
    × Some (Supports Verdict.confirmed an_action.id) proven.evidence
    × ¬ Some (Supports Verdict.rejected an_action.id) proven.evidence)
confirmed_iff_example =
    confirmed_iff proven an_action an_execution confirms refl refl proven-confirms

rejected_iff_example : (confirms.status ≡ rejected) ↔ (
    (an_execution.status ≡ completed)
    × (an_execution.exit_code ≡ 0)
    × Some (Supports Verdict.rejected an_action.id) proven.evidence
    × ¬ Some (Supports Verdict.confirmed an_action.id) proven.evidence)
rejected_iff_example = rejected_iff proven an_action an_execution confirms refl refl proven-confirms

abbrev unproven : AgentState
unproven = a_state [] an_execution

abbrev goes_on : GuardDecision
goes_on = record {
  status = continue;
  explanation =
      "Execution completed, but capability-specific Evidence is insufficient for a terminal verdict.";
  stop_reason = none;
}

unproven-goes_on : evaluate_evidence unproven ≡ some goes_on
unfolding evaluate_evidence after_success continue_or_stop succeeded has_terminal step_limit_reached
    reason_explanation
unproven-goes_on = refl

continue_below_limit_example :
    (unproven.iteration_count < step_limit unproven) × (goes_on.stop_reason ≡ none)
continue_below_limit_example =
    continue_below_limit unproven an_action an_execution goes_on refl refl unproven-goes_on refl

abbrev build_error : ErrorDetail
build_error = record {
  code = build_failed;
  layer = executor;
  message = "Target build failed before runtime verification";
  retryable = false;
}

abbrev broken : ExecutionResult
broken = record an_execution { status = failed; exit_code = 127; error = some build_error }

abbrev stops : GuardDecision
stops = record {
  status = inconclusive;
  explanation = "The target build failed before sufficient Evidence was collected.";
  stop_reason = some StopReason.build_failure;
}

broken-stops : evaluate_evidence (a_state [] broken) ≡ some stops
unfolding evaluate_evidence after_failure succeeded execution_reason reason_explanation
broken-stops = refl

fatal_failure_stops_test :
    (stops.status ≡ inconclusive) × (stops.stop_reason ≡ some StopReason.build_failure)
fatal_failure_stops_test =
    fatal_failure_stops (a_state [] broken) an_action broken stops refl refl broken-stops
      (inr (omega arith)) build_error StopReason.build_failure
      (record { error = refl; in_time = refl }) refl

abbrev late : ExecutionResult
late = record an_execution { status = failed; exit_code = 124; timed_out = true }

abbrev waits : GuardDecision
waits = record {
  status = continue;
  explanation = "The bounded verification timed out.";
  stop_reason = none;
}

late-waits : evaluate_evidence (a_state [] late) ≡ some waits
unfolding evaluate_evidence after_failure continue_or_stop succeeded execution_reason
    step_limit_reached reason_explanation
late-waits = refl

late_run_waits_test :
    let s = a_state [] late in
    (waits.status ≡ (if ltb s.iteration_count (step_limit s) then continue else inconclusive))
    × (waits.stop_reason ≡ (
        if ltb s.iteration_count (step_limit s) then none else some StopReason.execution_timeout))
late_run_waits_test =
    timeout_retries (a_state [] late) an_action late waits refl refl late-waits (inr (omega arith))
      refl

abbrev asks_on : ReevaluationResult
asks_on = record { status = continue; explanation = "look again" }

continue_iff_in_budget_example :
    let (r, reason) = apply_budget_to_reevaluation unproven asks_on 5 in
    ((r.status ≡ continue) ↔ (
      (asks_on.status ≡ continue)
      × (unproven.iteration_count < step_limit unproven)
      × (wall_clock_exhausted unproven 5 ≡ false)))
    × ((reason ≡ none) ↔ (r.status ≡ continue))
continue_iff_in_budget_example = continue_iff_in_budget unproven asks_on 5

verdict_kept_test :
    let r = (apply_budget_to_reevaluation unproven asks_on 5).0 in
    ((r.status ≡ confirmed) ↔ (asks_on.status ≡ confirmed))
    × ((r.status ≡ rejected) ↔ (asks_on.status ≡ rejected))
verdict_kept_test = budget_keeps_verdicts unproven asks_on 5

time_is_up : wall_clock_exhausted unproven 120000000 ≡ true
unfolding wall_clock_exhausted
time_is_up = refl

time_stays_up_test : wall_clock_exhausted unproven 130000000 ≡ true
time_stays_up_test = wall_clock_monotone unproven 120000000 130000000 (omega arith) time_is_up
