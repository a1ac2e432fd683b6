-- ===== src/Agent/Graph/Progress.antt =====
-- A run of the graph ends within the recursion limit, and with a report.
use cft_security_agent.Prelude.{
  ℕ, zero, suc, ◌+◌, ◌-◌, ◌*◌, ◌≤◌, leb, ◌≡◌, ◌≢◌, inl, inr, subst, not, Bool, true, false, Option,
  some, none, List, ◌∷◌, arith, text_eq, Option-cases, Bool-cases,
}
use cft_security_agent.Schemas.Action.{ValidationResult}
use cft_security_agent.Schemas.AgentLoop.{PlanValidationResult, DynamicPlan, PlannedAction}
use cft_security_agent.Schemas.State.{AgentState}
use cft_security_agent.Guard.{step_limit}
use cft_security_agent.Agent.Outside.{Outside}
use cft_security_agent.Agent.Nodes
use cft_security_agent.Agent.Nodes.Collect
use cft_security_agent.Reporting.{build_final_report}
use cft_security_agent.Agent.Planning.{validate as validate_plan}
use cft_security_agent.Agent.Planning.Approval.{approved_iff_IsConfined, StepsInScope}
use cft_security_agent.Agent.Graph.Steps.{validate_action-cases, propose_action-cases}
use cft_security_agent.Agent.Loop.{budget_stop_reason}
use cft_security_agent.Agent.Graph.{
  Node, Edge, RunEnd, finished, raised, recursion_error, successor, run_node, run, along, followed,
  has_status, load_context, score_finding, guard_agent_budget, analyse, form_hypothesis,
  propose_action, validate_action, execute, collect_evidence, reevaluate, report, to, finish,
  key_error,
}

-- the rounds that the step budget still allows
abbrev pub rounds_left : AgentState → ℕ
rounds_left s = step_limit s - s.iteration_count

guarded_lem :
    (s : AgentState) (now : ℕ)
    → let g = Nodes.guarded s (budget_stop_reason s now) in
      (rounds_left g ≡ rounds_left s) × (has_status "budget_ok" g.status ≡ true → 1 ≤ rounds_left s)
unfolding Nodes.guarded step_limit budget_stop_reason
guarded_lem s now = elim (Bool-cases (leb (step_limit s) s.iteration_count)) [
  | inl e ↦ ground (arith, e)
  | inr e ↦ ground (arith, e)
]

abbrev refuses : Option PlanValidationResult → Bool
refuses none = false
refuses (some p) = not p.approved

abbrev approves : Option ValidationResult → Bool
approves none = false
approves (some v) = v.approved

-- what the validator of plans says of the iteration of an approved plan's first action
approved_iteration :
    (plan : DynamicPlan) (s : AgentState) (p : PlannedAction) (ps : List PlannedAction)
    → plan.steps ≡ p ∷ ps
    → (validate_plan plan s).approved ≡ true
    → p.action.iteration ≡ suc s.iteration_count
unfolding validate_plan
approved_iteration plan s p ps e a = elim (Option-cases s.target_profile) [
  | inl none' ↦ absurd (ground (arith, none'))
  | inr (profile, e') ↦ ground (
    arith,
    e,
    subst (λ steps. StepsInScope profile s.runtime_services (suc s.iteration_count) steps) e
        ((approved_iff_IsConfined plan s profile e').0 a).steps,
  )
]

module _ {S : Type 0} (out : Outside S) (s s' : AgentState) (w w' : S) where
  load_context-steps : Nodes.load_context out s w ≡ some (s', w') → step_limit s' ≤ 8
  unfolding Nodes.load_context step_limit
  load_context-steps h = ground arith

  score_finding-rounds_left :
      Nodes.score_finding out s w ≡ some (s', w') → rounds_left s' ≡ rounds_left s
  unfolding Nodes.score_finding step_limit
  score_finding-rounds_left h = ground arith

  guard_agent_budget-rounds_left :
      Nodes.guard_agent_budget out s w ≡ some (s', w')
      → (rounds_left s' ≡ rounds_left s)
        × (has_status "budget_ok" s'.status ≡ true → 1 ≤ rounds_left s)
  unfolding Nodes.guard_agent_budget
  guard_agent_budget-rounds_left h = elim (Option-cases (out.check_cancelled w)) [
    | inl e ↦ absurd (ground (arith, e))
    | inr e ↦ ground (arith, guarded_lem s (out.now ((e.0).1)).0, e.1)
  ]

  analyse-rounds_left : Nodes.analyse out s w ≡ some (s', w') → rounds_left s' ≡ rounds_left s
  unfolding Nodes.analyse step_limit
  analyse-rounds_left h = ground arith

  form_hypothesis-rounds_left :
      Nodes.form_hypothesis out s w ≡ some (s', w') → rounds_left s' ≡ rounds_left s
  unfolding Nodes.form_hypothesis step_limit
  form_hypothesis-rounds_left h = ground arith

  collect_evidence-rounds_left :
      Collect.collect_evidence out s w ≡ some (s', w') → rounds_left s' ≡ rounds_left s
  unfolding Collect.collect_evidence step_limit
  collect_evidence-rounds_left h = ground arith

  execute_action-rounds_left :
      Collect.execute_action out s w ≡ some (s', w') → rounds_left s' ≡ rounds_left s
  unfolding Collect.execute_action step_limit
  execute_action-rounds_left h = ground arith

  reevaluate-rounds_left :
      Collect.reevaluate out s w ≡ some (s', w') → rounds_left s' ≡ rounds_left s
  unfolding Collect.reevaluate step_limit
  reevaluate-rounds_left h = ground arith

  build_report-final_report :
      Collect.build_report out s w ≡ some (s', w')
      → s'.final_report ≡ some (build_final_report out.patterns out.print s)
  unfolding Collect.build_report
  build_report-final_report h = ground arith

module _ {S : Type 0} (out : Outside S) (s s' : AgentState) (w w' : S) where
  -- the edge into the execution is taken only where plan and action were approved
  validate_action-rounds_left :
      Nodes.validate_action out s w ≡ some (s', w')
      → (rounds_left s' ≡ rounds_left s)
        × (approves s'.validation ≡ true → refuses s.plan_validation ≡ false)
  unfolding step_limit Nodes.plan_denial Nodes.blocked Nodes.judged
  validate_action-rounds_left h = elim (validate_action-cases out s s' w w' h) [
    | inl (a, v, x, e, r) ↦ ground (arith, e, r)
    | inr (a, policy, profile, x, e, y, z, r) ↦ ground (arith, e, r)
  ]

  propose_action-rounds_left :
      Nodes.propose_action out s w ≡ some (s', w')
      → 1 ≤ rounds_left s
      → refuses s'.plan_validation ≡ false
      → suc (rounds_left s') ≤ rounds_left s
  unfolding Nodes.proposed step_limit
  propose_action-rounds_left h pos a =
      let (plan, p, ps, e, r) = propose_action-cases out s s' w w' h in
      ground (arith, r, approved_iteration plan s p ps e)

-- super-steps that are enough from a node on
abbrev pub Fuel : Node → AgentState → ℕ → Type 0
Fuel load_context s n = 68 ≤ n
Fuel score_finding s n = 8 * rounds_left s + 3 ≤ n
Fuel guard_agent_budget s n = 8 * rounds_left s + 2 ≤ n
Fuel analyse s n = (1 ≤ rounds_left s) × (8 * rounds_left s + 1 ≤ n)
Fuel form_hypothesis s n = (1 ≤ rounds_left s) × (8 * rounds_left s ≤ n)
Fuel propose_action s n = (1 ≤ rounds_left s) × (8 * rounds_left s ≤ n + 1)
Fuel validate_action s n = (2 ≤ n) × (refuses s.plan_validation ≡ false → 8 * rounds_left s + 6 ≤ n)
Fuel execute s n = 8 * rounds_left s + 5 ≤ n
Fuel collect_evidence s n = 8 * rounds_left s + 4 ≤ n
Fuel reevaluate s n = 8 * rounds_left s + 3 ≤ n
Fuel report s n = 1 ≤ n

abbrev FuelAlong : Edge → AgentState → ℕ → Type 0
FuelAlong (to node) s n = Fuel node s n
FuelAlong finish s n = Unit
FuelAlong key_error s n = Unit

module _ {S : Type 0} (out : Outside S) where
  Fuel-zero : (node : Node) (s : AgentState) → ¬ (Fuel node s 0)
  Fuel-zero load_context s f = omega arith
  Fuel-zero score_finding s f = omega arith
  Fuel-zero guard_agent_budget s f = omega arith
  Fuel-zero analyse s f = omega arith
  Fuel-zero form_hypothesis s f = omega arith
  Fuel-zero propose_action s f = omega arith
  Fuel-zero validate_action s f = omega arith
  Fuel-zero execute s f = omega arith
  Fuel-zero collect_evidence s f = omega arith
  Fuel-zero reevaluate s f = omega arith
  Fuel-zero report s f = omega arith

  -- a super-step leaves enough fuel for the node that is due next
  Fuel-run_node :
      (node : Node) (s s' : AgentState) (w w' : S) (n : ℕ)
      → run_node out node s w ≡ some (s', w')
      → Fuel node s (suc n)
      → FuelAlong (successor node s') s' n
  unfolding run_node successor
  Fuel-run_node load_context s s' w w' n h f = ground (arith, load_context-steps out s s' w w' h)
  Fuel-run_node score_finding s s' w w' n h f =
      ground (arith, score_finding-rounds_left out s s' w w' h)
  Fuel-run_node guard_agent_budget s s' w w' n h f =
      ground (arith, guard_agent_budget-rounds_left out s s' w w' h)
  Fuel-run_node analyse s s' w w' n h f = ground (arith, analyse-rounds_left out s s' w w' h)
  Fuel-run_node form_hypothesis s s' w w' n h f =
      ground (arith, form_hypothesis-rounds_left out s s' w w' h)
  Fuel-run_node propose_action s s' w w' n h f =
      ground (arith, propose_action-rounds_left out s s' w w' h)
  Fuel-run_node validate_action s s' w w' n h f =
      ground (arith, validate_action-rounds_left out s s' w w' h)
  Fuel-run_node execute s s' w w' n h f = ground (arith, execute_action-rounds_left out s s' w w' h)
  Fuel-run_node collect_evidence s s' w w' n h f =
      ground (arith, collect_evidence-rounds_left out s s' w w' h)
  Fuel-run_node reevaluate s s' w w' n h f = ground (arith, reevaluate-rounds_left out s s' w w' h)
  Fuel-run_node report s s' w w' n h f = ground (arith)

  abbrev Ends : RunEnd S → Type 0
  Ends r = r ≢ recursion_error

  along-Ends :
      (n : ℕ) (edge : Edge) (s : AgentState) (w : S)
      → FuelAlong edge s n
      → ((node : Node) (s : AgentState) (w : S) → Fuel node s n → Ends (run out n node s w))
      → Ends (along (run out n) edge s w)
  unfolding along
  along-Ends n (to node) s w f ih = ih node s w f
  along-Ends n finish s w f ih = ground arith
  along-Ends n key_error s w f ih = ground arith

  ends : (n : ℕ) (node : Node) (s : AgentState) (w : S) → Fuel node s n → Ends (run out n node s w)
  unfolding run followed along
  ends zero node s w f = absurd (Fuel-zero node s f)
  ends (suc n) node s w f = elim (Option-cases (run_node out node s w)) [
    | inl e ↦ rw e (ground arith)
    | inr ((s', w'), e) ↦
        rw e (along-Ends n (successor node s') s' w' (Fuel-run_node node s s' w w' n e f) (ends n))
  ]

  -- A run of the graph never needs more than 68 super-steps, so that the recursion limit of 128 is
  -- never hit, whatever the model, the executor and the state that it starts in.
  pub graph_ends :
      (n : ℕ) (s : AgentState) (w : S) → 68 ≤ n → run out n load_context s w ≢ recursion_error
  graph_ends n s w h = ends n load_context s w h

  abbrev FinishesWith : RunEnd S → Type 0
  FinishesWith raised = Unit
  FinishesWith recursion_error = Unit
  FinishesWith (finished s w) =
      (before : AgentState) × (s.final_report
        ≡ some (build_final_report out.patterns out.print before))
      × (s.evidence ≡ before.evidence)
      × (s.action_history ≡ before.action_history)
      × (s.stop_reason ≡ before.stop_reason)
