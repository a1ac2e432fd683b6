-- ===== src/Guard/Verdicts.antt =====
-- Which evidence a terminal verdict of the guard rests on.
use cft_security_agent.Prelude.{
  ◌<◌, String, ◌≡◌, ◌↔◌, ◌⊎◌, true, some, none, List, [], ◌∷◌, arith, text_eq, Some,
}
use cft_security_agent.Schemas.Action.{ActionProposal}
use cft_security_agent.Schemas.Execution.{ExecutionResult, completed}
use cft_security_agent.Schemas.Evidence.{Evidence, Verdict, high, medium}
use cft_security_agent.Schemas.AgentLoop.{confirmed, rejected, continue}
use cft_security_agent.Schemas.State.{AgentState}
use cft_security_agent.Guard.{
  GuardDecision, has_terminal, is_confirmed, is_rejected, evaluate_evidence, after_success,
  after_failure, continue_or_stop, succeeded, step_limit, step_limit_reached,
}

-- Evidence of the action, of high or medium reliability, that carries the verdict.
pub record Supports (verdict : Verdict) (action_id : String) (e : Evidence) : Type 0 where
  pub same_action : e.action_id ≡ action_id
  pub carries : e.verdict ≡ some verdict
  pub reliable : (e.reliability ≡ high) ⊎ (e.reliability ≡ medium)

confirms_iff :
    (id : String) (es : List Evidence)
    → (has_terminal is_confirmed id es ≡ true) ↔ Some (Supports Verdict.confirmed id) es
unfolding has_terminal
confirms_iff id [] = ground arith
confirms_iff id (e ∷ es) = ground (arith, confirms_iff id es, text_eq.same_iff e.action_id id)

rejects_iff :
    (id : String) (es : List Evidence)
    → (has_terminal is_rejected id es ≡ true) ↔ Some (Supports Verdict.rejected id) es
unfolding has_terminal
rejects_iff id [] = ground arith
rejects_iff id (e ∷ es) = ground (arith, rejects_iff id es, text_eq.same_iff e.action_id id)

module _ (s : AgentState) (a : ActionProposal) (x : ExecutionResult) (d : GuardDecision)
    (proposed : s.proposed_action ≡ some a) (executed : s.execution ≡ some x)
    (decided : evaluate_evidence s ≡ some d) where
  -- The guard confirms exactly when the action ran to exit code 0, some reliable evidence of the
  -- action confirms the finding and none rejects it.
  pub confirmed_iff : (d.status ≡ confirmed) ↔ (
      (x.status ≡ completed)
      × (x.exit_code ≡ 0)
      × Some (Supports Verdict.confirmed a.id) s.evidence
      × ¬ Some (Supports Verdict.rejected a.id) s.evidence)
  unfolding evaluate_evidence after_success after_failure continue_or_stop succeeded
  confirmed_iff = ground (arith, confirms_iff a.id s.evidence, rejects_iff a.id s.evidence)

  -- The guard rejects exactly when the action ran to exit code 0, some reliable evidence of the
  -- action rejects the finding and none confirms it.
  pub rejected_iff : (d.status ≡ rejected) ↔ (
      (x.status ≡ completed)
      × (x.exit_code ≡ 0)
      × Some (Supports Verdict.rejected a.id) s.evidence
      × ¬ Some (Supports Verdict.confirmed a.id) s.evidence)
  unfolding evaluate_evidence after_success after_failure continue_or_stop succeeded
  rejected_iff = ground (arith, confirms_iff a.id s.evidence, rejects_iff a.id s.evidence)

  -- Where the guard lets the agent go on, the step limit is not reached and no reason to stop is
  -- given.
  pub continue_below_limit :
      d.status ≡ continue → (s.iteration_count < step_limit s) × (d.stop_reason ≡ none)
  unfolding evaluate_evidence after_success after_failure continue_or_stop succeeded
      step_limit_reached
  continue_below_limit h = ground arith
