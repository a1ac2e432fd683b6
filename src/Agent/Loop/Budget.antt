-- ===== src/Agent/Loop/Budget.antt =====
-- The budgets end the agent.
use cft_security_agent.Prelude.{ℕ, ◌≤◌, ◌<◌, ◌≡◌, ◌↔◌, true, false, none, arith}
use cft_security_agent.Schemas.AgentLoop.{confirmed, rejected, continue, ReevaluationResult}
use cft_security_agent.Schemas.State.{AgentState}
use cft_security_agent.Guard.{step_limit}
use cft_security_agent.Agent.Loop.{
  wall_clock_exhausted, budget_stop_reason, apply_budget_to_reevaluation, budget_inconclusive,
  budget_continue,
}

-- The reevaluation lets the agent go on exactly when the model asked for it while the step limit
-- was not reached and the time was not used up; any other reevaluation comes with a stop reason.
pub continue_iff_in_budget :
    (s : AgentState) (result : ReevaluationResult) (now : ℕ)
    → let (r, reason) = apply_budget_to_reevaluation s result now in
      ((r.status ≡ continue) ↔ (
        (result.status ≡ continue)
        × (s.iteration_count < step_limit s)
        × (wall_clock_exhausted s now ≡ false)))
      × ((reason ≡ none) ↔ (r.status ≡ continue))
unfolding apply_budget_to_reevaluation budget_continue budget_inconclusive budget_stop_reason
continue_iff_in_budget s result now = ground arith

-- A verdict of the model passes the budget unchanged, and the budget invents none.
pub budget_keeps_verdicts :
    (s : AgentState) (result : ReevaluationResult) (now : ℕ)
    → let r = (apply_budget_to_reevaluation s result now).0 in
      ((r.status ≡ confirmed) ↔ (result.status ≡ confirmed))
      × ((r.status ≡ rejected) ↔ (result.status ≡ rejected))
unfolding apply_budget_to_reevaluation budget_continue budget_inconclusive budget_stop_reason
budget_keeps_verdicts s result now = ground arith

-- Time used up stays used up.
pub wall_clock_monotone :
    (s : AgentState) (now later : ℕ)
    → now ≤ later
    → wall_clock_exhausted s now ≡ true
    → wall_clock_exhausted s later ≡ true
unfolding wall_clock_exhausted
wall_clock_monotone s now later h e = ground arith
