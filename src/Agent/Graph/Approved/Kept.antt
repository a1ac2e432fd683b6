-- ===== src/Agent/Graph/Approved/Kept.antt =====
-- What the nodes of agent/nodes.py leave of the profile, the history and the proposed action.
use mathlib.Core.List
use cft_security_agent.Prelude.{
  String, ◌≡◌, inl, inr, refl, Option, some, none, Bool, List, arith, Option-cases, text_eq,
}
use cft_security_agent.Schemas.Action.{ActionProposal}
use cft_security_agent.Schemas.Execution.{ExecutionResult}
use cft_security_agent.Schemas.Evidence.{Evidence}
use cft_security_agent.Schemas.AgentLoop.{StopReason}
use cft_security_agent.Schemas.Target.{TargetProfile}
use cft_security_agent.Schemas.State.{AgentState}
use cft_security_agent.Interpreter.{StoredRecord}
use cft_security_agent.Agent.Outside.{Outside, required}
use cft_security_agent.Agent.Loop.{budget_stop_reason}
use cft_security_agent.Agent.Nodes
use cft_security_agent.Agent.Nodes.Collect
use cft_security_agent.Agent.Graph.Steps.{bound, required-eq-some, propose_action-cases}

guarded-kept :
    (s : AgentState) (reason : Option StopReason)
    → ((Nodes.guarded s reason).target_profile ≡ s.target_profile)
      × ((Nodes.guarded s reason).action_history ≡ s.action_history)
unfolding Nodes.guarded
guarded-kept s none = (refl, refl)
guarded-kept s (some reason) = (refl, refl)

module _ {S : Type 0} (out : Outside S) (profile : TargetProfile) (s s' : AgentState)
    (w w' : S) where
  pub score_finding-kept :
      Nodes.score_finding out s w ≡ some (s', w')
      → (s'.target_profile ≡ s.target_profile) × (s'.action_history ≡ s.action_history)
  unfolding Nodes.score_finding
  score_finding-kept h = ground arith

  pub guard_agent_budget-kept :
      Nodes.guard_agent_budget out s w ≡ some (s', w')
      → (s'.target_profile ≡ s.target_profile) × (s'.action_history ≡ s.action_history)
  unfolding Nodes.guard_agent_budget
  guard_agent_budget-kept h = elim (Option-cases (out.check_cancelled w)) [
    | inl e ↦ absurd (ground (arith, e))
    | inr e ↦ ground (arith, guarded-kept s (budget_stop_reason s (out.now ((e.0).1)).0), e.1)
  ]

  pub load_context-kept :
      Nodes.load_context out s w ≡ some (s', w')
      → s.target_profile ≡ some profile
      → (s'.target_profile ≡ s.target_profile) × (s'.action_history ≡ s.action_history)
  unfolding Nodes.load_context
  load_context-kept h = ground arith

  pub analyse-kept :
      Nodes.analyse out s w ≡ some (s', w')
      → (s'.target_profile ≡ s.target_profile) × (s'.action_history ≡ s.action_history)
  unfolding Nodes.analyse
  analyse-kept h = ground arith

  pub form_hypothesis-kept :
      Nodes.form_hypothesis out s w ≡ some (s', w')
      → (s'.target_profile ≡ s.target_profile) × (s'.action_history ≡ s.action_history)
  unfolding Nodes.form_hypothesis
  form_hypothesis-kept h = ground arith

  pub propose_action-kept :
      Nodes.propose_action out s w ≡ some (s', w')
      → (s'.target_profile ≡ s.target_profile) × (s'.action_history ≡ s.action_history)
  unfolding Nodes.proposed
  propose_action-kept h =
      let (plan, p, ps, e, r) = propose_action-cases out s s' w w' h in ground (arith, r)

  pub execute_action-kept :
      Collect.execute_action out s w ≡ some (s', w')
      → (s'.target_profile ≡ s.target_profile)
        × (s'.action_history ≡ s.action_history)
        × (s'.proposed_action ≡ s.proposed_action)
  unfolding Collect.execute_action
  execute_action-kept h = ground arith

  pub reevaluate-kept :
      Collect.reevaluate out s w ≡ some (s', w')
      → (s'.target_profile ≡ s.target_profile) × (s'.action_history ≡ s.action_history)
  unfolding Collect.reevaluate
  reevaluate-kept h = ground arith

  pub build_report-kept :
      Collect.build_report out s w ≡ some (s', w')
      → (s'.target_profile ≡ s.target_profile) × (s'.action_history ≡ s.action_history)
  unfolding Collect.build_report
  build_report-kept h = ground arith

  pub collect_evidence-recorded :
      Collect.collect_evidence out s w ≡ some (s', w')
      → (a : ActionProposal) × (x : ExecutionResult) × (evidence : List Evidence)
        × (s.proposed_action ≡ some a)
        × (Collect.recorded_action s a x evidence ≡ some s'.action_history)
        × (s'.target_profile ≡ s.target_profile)
  unfolding Collect.collect_evidence
  collect_evidence-recorded h =
      let (x1, e1, h1) = bound (out.check_cancelled w) _ h in
      let (x2, e2, h2) = bound (required s.execution x1.1) _ h1 in
      let (x3, e3, h3) = bound (required s.proposed_action x2.1) _ h2 in
      let stored : StoredRecord × Bool =
        Collect.loaded_record (x3.0) (x2.0) (out.get_execution x2.0.evidence_ref (x3.1)) in
      let (x4, e4, h4) = bound (Collect.sandbox_session out (x3.0) stored (x3.1)) _ h3 in
      let ids : String → String = (out.fresh_ids (x4.1)).0 in
      let (x5, e5, h5) =
        bound
          (required (Collect.gathered out s (x3.0) (x2.0) stored (x4.0) ids)
            (out.fresh_ids (x4.1)).1)
          _ h4 in
      let (x6, e6, h6) =
        bound
          (required (Collect.recorded_action s (x3.0) (x2.0) (List.◌++◌ s.evidence (x5.0))) (x5.1))
          _ h5 in
      (
        x3.0,
        x2.0,
        List.◌++◌ s.evidence (x5.0),
        required-eq-some _ _ e3,
        ground (arith, required-eq-some _ _ e6, h6),
        ground arith,
      )
