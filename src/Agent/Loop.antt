-- ===== src/Agent/Loop.antt =====
-- agent/loop.py: the budgets of the agent, and what they make of a reevaluation.
pub mod Budget
use cft_security_agent.Prelude.{
  ℕ, ◌-◌, String, Bool, true, false, ◌||◌, Option, some, none, List, leb, ◌==◌, text_eq, nat_eq,
  if◌then◌else◌, or_default, keep, map,
}
use cft_security_agent.Schemas.Action.{ActionProposal}
use cft_security_agent.Schemas.Execution.{ExecutionResult, is_completed}
use cft_security_agent.Schemas.Evidence.{Evidence}
use cft_security_agent.Schemas.AgentLoop.{
  StopReason, terminal_evidence, step_budget_exhausted, wall_clock_budget_exhausted,
  execution_failed, insufficient_evidence, Outcome, confirmed, rejected, inconclusive, continue,
  ReevaluationResult, AgentDecisionRecord, DecisionOutcome, DynamicPlan,
}
use cft_security_agent.Schemas.State.{AgentState}
use cft_security_agent.Guard.{step_limit, evaluate_evidence, GuardDecision}

-- 120 seconds
abbrev default_wall_clock : ℕ
default_wall_clock = 120000000

-- `now - started_at` is at least the budget. A clock that went back gives a negative difference,
-- which is below every positive budget, as the truncated one is.
unfoldable pub wall_clock_exhausted : AgentState → ℕ → Bool
wall_clock_exhausted s now = elim s.started_at [
  | none ↦ false
  | some started ↦
      let budget = or_default s.wall_clock_budget default_wall_clock in
      if budget == 0 then true else leb budget (now - started)
]

unfoldable pub budget_stop_reason : AgentState → ℕ → Option StopReason
budget_stop_reason s now =
    if leb (step_limit s) s.iteration_count
    then some step_budget_exhausted
    else if wall_clock_exhausted s now
    then some wall_clock_budget_exhausted
    else none

unfoldable pub terminal_evidence_status : AgentState → Option Outcome
terminal_evidence_status s = elim (evaluate_evidence s) [
  | none ↦ none
  | some d ↦ elim d.status [ confirmed ↦ some confirmed | rejected ↦ some rejected | _ ↦ none ]
]

abbrev exhausted : String → ReevaluationResult
exhausted text = record { status = inconclusive; explanation = text }

-- the part after the test for a terminal status; `reason` is `budget_stop_reason(state)`
abbrev pub not_completed : Option ExecutionResult → Bool
not_completed none = false
not_completed (some x) = if is_completed x.status then false else true

unfoldable pub budget_inconclusive : AgentState → Option StopReason → StopReason
budget_inconclusive s (some reason) = reason
budget_inconclusive s none =
    if not_completed s.execution then execution_failed else insufficient_evidence

unfoldable pub budget_continue :
    ReevaluationResult → Option StopReason → ReevaluationResult × Option StopReason
budget_continue result (some step_budget_exhausted) = (
  exhausted "Agent step budget was exhausted without terminal Evidence.",
  some step_budget_exhausted,
)
budget_continue result (some wall_clock_budget_exhausted) = (
  exhausted "Agent wall-clock budget was exhausted without terminal Evidence.",
  some wall_clock_budget_exhausted,
)
budget_continue result _ = (result, none)

unfoldable pub apply_budget_to_reevaluation :
    AgentState → ReevaluationResult → ℕ → ReevaluationResult × Option StopReason
apply_budget_to_reevaluation s result now = elim result.status [
  | confirmed ↦ (result, some terminal_evidence)
  | rejected ↦ (result, some terminal_evidence)
  | inconclusive ↦ (result, some (budget_inconclusive s (budget_stop_reason s now)))
  | continue ↦ budget_continue result (budget_stop_reason s now)
]

abbrev pub plan_id_of : Option DynamicPlan → Option String
plan_id_of none = none
plan_id_of (some p) = some p.id

abbrev concerns : Option ActionProposal → Evidence → Bool
concerns none e = true
concerns (some a) e = e.action_id == a.id

abbrev outcome_of : Outcome → DecisionOutcome
outcome_of continue = DecisionOutcome.continue
outcome_of _ = DecisionOutcome.stop

unfoldable pub decision_record :
    AgentState → ReevaluationResult → Option StopReason → AgentDecisionRecord
decision_record s result stop_reason = record {
  step = s.iteration_count;
  outcome = outcome_of result.status;
  reason = result.explanation;
  evidence_ids = map (λ (e : Evidence). e.id) (keep (concerns s.proposed_action) s.evidence);
  plan_id = plan_id_of s.dynamic_plan;
  stop_reason = stop_reason;
}
