-- ===== src/Agent/Graph/Approved.antt =====
-- Every action that a run of the graph records as executed was approved by the policy.
pub mod Kept
use mathlib.Core.List
use mathlib.Core.Option.{some-injective}
use cft_security_agent.Prelude.{
  ℕ, zero, suc, String, ◌≡◌, ◌⊎◌, inl, inr, refl, subst, sym, ◌∙◌, Option, some, none, true, Bool,
  List, [], ◌∷◌, All, arith, Option-cases, Bool-cases, any, ◌==◌, text_eq, false, if◌then◌else◌,
}
use cft_security_agent.Schemas.Action.{ActionProposal, ValidationResult}
use cft_security_agent.Schemas.Execution.{ExecutionResult}
use cft_security_agent.Schemas.Evidence.{Evidence}
use cft_security_agent.Schemas.AgentLoop.{
  AgentActionRecord, StopReason, PlanValidationResult, DynamicPlan, PlannedAction, policy_blocked,
  plan_rejected,
}
use cft_security_agent.Schemas.Target.{TargetProfile}
use cft_security_agent.Schemas.State.{AgentState}
use cft_security_agent.Interpreter.{StoredRecord}
use cft_security_agent.Validator.{validate}
use cft_security_agent.Validator.Document.{Policy, from_document}
use cft_security_agent.Agent.Planning.{validate as validate_plan}
use cft_security_agent.Agent.Outside.{Outside, required}
use cft_security_agent.Agent.Loop.{budget_stop_reason}
use cft_security_agent.Agent.Nodes
use cft_security_agent.Agent.Nodes.Collect
use cft_security_agent.Agent.Graph.Steps.{
  bound, required-eq-some, validate_action-cases, propose_action-cases,
}
use cft_security_agent.Agent.Graph.{
  Node, Edge, RunEnd, finished, successor, run_node, run, along, followed, invoke, after_validation,
  to, finish, key_error, load_context, score_finding, guard_agent_budget, analyse, form_hypothesis,
  propose_action, validate_action, execute, collect_evidence, reevaluate, report,
}
use cft_security_agent.Agent.Graph.Approved.Kept.{
  score_finding-kept, guard_agent_budget-kept, load_context-kept, analyse-kept,
  form_hypothesis-kept, propose_action-kept, execute_action-kept, reevaluate-kept,
  build_report-kept, collect_evidence-recorded,
}

-- The run that starts in a state of the agent and of the world comes to a node in these states.
pub data Reaches {S : Type 0} (out : Outside S) (start : AgentState) (origin : S)
    : Node → AgentState → S → Type 0 where
  starts : Reaches out start origin load_context start origin
  follows :
      (node next : Node) (s s' : AgentState) (w w' : S)
      → Reaches out start origin node s w
      → run_node out node s w ≡ some (s', w')
      → successor node s' ≡ to next
      → Reaches out start origin next s' w'

module _ {S : Type 0} (out : Outside S) (profile : TargetProfile) (start : AgentState)
    (origin : S) where
  -- the policy of the run approves the action for the profile
  abbrev pub IsApproved : ActionProposal → Type 0
  IsApproved a =
      (policy : Policy) × (out.policy ≡ some policy)
      × ((validate (from_document policy (some profile)) a).approved ≡ true)

  -- the plan validator gave this result for a plan with the action as its first step, in a state in
  -- which the run came to the proposal of an action
  abbrev pub IsVerdictOn : ActionProposal → PlanValidationResult → Type 0
  IsVerdictOn a v =
      (plan : DynamicPlan) × (p : PlannedAction) × (ps : List PlannedAction) × (s : AgentState)
      × (w : S) × (plan.steps ≡ p ∷ ps)
      × (p.action ≡ a)
      × Reaches out start origin propose_action s w
      × (v ≡ validate_plan plan s)

  -- the plan validator approved such a plan
  abbrev pub IsPlanned : ActionProposal → Type 0
  IsPlanned a = (v : PlanValidationResult) × (v.approved ≡ true) × IsVerdictOn a v

  abbrev pub IsAllowed : ActionProposal → Type 0
  IsAllowed a = IsApproved a × IsPlanned a

  abbrev Proposed : AgentState → Type 0
  Proposed s =
      (a : ActionProposal) × (v : PlanValidationResult) × (s.proposed_action ≡ some a)
      × (s.plan_validation ≡ some v)
      × IsVerdictOn a v

  -- an action that was executed was allowed
  abbrev pub IsLawful : AgentActionRecord → Type 0
  IsLawful r = (r.execution ≡ none) ⊎ IsAllowed r.action

  abbrev Pending : AgentState → Type 0
  Pending s = (a : ActionProposal) × (s.proposed_action ≡ some a) × IsAllowed a

  abbrev Before : Node → AgentState → Type 0
  Before execute s = Pending s
  Before collect_evidence s = Pending s
  Before validate_action s = Proposed s
  Before _ s = Unit

  abbrev Invariant : Node → AgentState → Type 0
  Invariant node s =
      (s.target_profile ≡ some profile) × All IsLawful s.action_history × Before node s

  abbrev InvariantAlong : Edge → AgentState → Type 0
  InvariantAlong (to node) s = Invariant node s
  InvariantAlong finish s = All IsLawful s.action_history
  InvariantAlong key_error s = Unit

  All-append :
      (rs : List AgentActionRecord) (r : AgentActionRecord)
      → All IsLawful rs
      → IsLawful r
      → All IsLawful (List.◌++◌ rs (r ∷ []))
  All-append [] r a h = (h, tt)
  All-append (x ∷ rs) r a h = (a.0, All-append rs r (a.1) h)

  history_with-IsLawful :
      (s : AgentState) (a : ActionProposal) (x : ExecutionResult) (evidence : List Evidence)
      (v : Option ValidationResult) (rs : List AgentActionRecord)
      → Collect.history_with s a x evidence v ≡ some rs
      → All IsLawful s.action_history
      → IsAllowed a
      → All IsLawful rs
  history_with-IsLawful s a x evidence none rs e h p = absurd (ground arith)
  history_with-IsLawful s a x evidence (some v) rs e h p =
      subst (λ q. All IsLawful q) (some-injective _ _ e) (All-append s.action_history _ h (inr p))

  recorded_action-IsLawful :
      (s : AgentState) (a : ActionProposal) (x : ExecutionResult) (evidence : List Evidence)
      (rs : List AgentActionRecord)
      → Collect.recorded_action s a x evidence ≡ some rs
      → All IsLawful s.action_history
      → IsAllowed a
      → All IsLawful rs
  unfolding Collect.recorded_action
  recorded_action-IsLawful s a x evidence rs e h p =
      elim (Bool-cases (any (λ (r : AgentActionRecord). r.action.id == a.id) s.action_history)) [
        | inl seen ↦ subst (λ q. All IsLawful q) (ground (arith, seen)) h
        | inr new ↦ history_with-IsLawful s a x evidence s.validation rs (ground (arith, new)) h p
      ]

  abbrev Base : AgentState → Type 0
  Base s = (s.target_profile ≡ some profile) × All IsLawful s.action_history

  abbrev Keeps : AgentState → AgentState → Type 0
  Keeps s s' = (s'.target_profile ≡ s.target_profile) × (s'.action_history ≡ s.action_history)

  kept : (s s' : AgentState) → Keeps s s' → Base s → Base s'
  kept s s' k b = (k.0 ∙ b.0, subst (λ q. All IsLawful q) (sym (k.1)) (b.1))

module _ {S : Type 0} (out : Outside S) (profile : TargetProfile) (start : AgentState)
    (origin : S) where
  after_budget_guard-Base :
      (b : Bool) (s : AgentState)
      → Base out profile start origin s
      → InvariantAlong out profile start origin (if b then to analyse else to report) s
  after_budget_guard-Base true s b = (b.0, b.1, tt)
  after_budget_guard-Base false s b = (b.0, b.1, tt)

  after_reevaluation-Base :
      (b : Bool) (s : AgentState)
      → Base out profile start origin s
      → InvariantAlong out profile start origin (if b then to guard_agent_budget else to report) s
  after_reevaluation-Base true s b = (b.0, b.1, tt)
  after_reevaluation-Base false s b = (b.0, b.1, tt)

  base :
      (node : Node) (s : AgentState)
      → Invariant out profile start origin node s
      → Base out profile start origin s
  base node s i = (i.0, i.1)

  plain :
      (s : AgentState)
      → Base out profile start origin s
      → (s.target_profile ≡ some profile)
        × All (IsLawful out profile start origin) s.action_history
        × Unit {0}
  plain s b = (b.0, b.1, tt)

  blocked-Invariant :
      (s : AgentState) (a : ActionProposal) (v : ValidationResult) (reason : StopReason)
      → v.approved ≡ false
      → Base out profile start origin s
      → InvariantAlong out profile start origin
          (after_validation (Nodes.blocked s a v reason).validation)
          (Nodes.blocked s a v reason)
  unfolding Nodes.blocked
  blocked-Invariant s a v reason e b =
      rw e (b.0, All-append out profile start origin s.action_history _ (b.1) (inl refl), tt)

  judged-refused :
      (s : AgentState) (a : ActionProposal) (v : ValidationResult)
      → v.approved ≡ false
      → Nodes.judged s a v ≡ Nodes.blocked s a v policy_blocked
  unfolding Nodes.judged
  judged-refused s a v e = ground (arith, e)

  judged-Invariant :
      (s : AgentState) (a : ActionProposal) (v : ValidationResult)
      → s.proposed_action ≡ some a
      → (v.approved ≡ true → IsAllowed out profile start origin a)
      → Base out profile start origin s
      → InvariantAlong out profile start origin
          (after_validation (Nodes.judged s a v).validation)
          (Nodes.judged s a v)
  unfolding Nodes.judged
  judged-Invariant s a v x p b = elim (Bool-cases v.approved) [
    | inl e ↦ rw e (b.0, b.1, (a, x, p e))
    | inr e ↦
        subst (λ q. InvariantAlong out profile start origin (after_validation q.validation) q)
          (sym (judged-refused s a v e)) (blocked-Invariant s a v policy_blocked e b)
  ]

  plan_denial-approved :
      (a : ActionProposal) (p : Option PlanValidationResult) (v : ValidationResult)
      → Nodes.plan_denial a p ≡ some v
      → v.approved ≡ false
  unfolding Nodes.plan_denial
  plan_denial-approved a p v e = ground arith

  plan_denial-none :
      (a : ActionProposal) (v : PlanValidationResult)
      → Nodes.plan_denial a (some v) ≡ none
      → v.approved ≡ true
  unfolding Nodes.plan_denial
  plan_denial-none a v e = ground arith

  proposed-Proposed :
      (s : AgentState) (w : S) (plan : DynamicPlan) (p : PlannedAction) (ps : List PlannedAction)
      → plan.steps ≡ p ∷ ps
      → Reaches out start origin propose_action s w
      → Proposed out profile start origin (Nodes.proposed s plan p.action)
  unfolding Nodes.proposed
  proposed-Proposed s w plan p ps e r =
      (p.action, validate_plan plan s, refl, refl, (plan, p, ps, s, w, e, refl, r, refl))

  -- an action that is not denied has a plan that the validator approved
  undenied-IsPlanned :
      (s : AgentState) (a : ActionProposal)
      → Proposed out profile start origin s
      → s.proposed_action ≡ some a
      → Nodes.plan_denial a s.plan_validation ≡ none
      → IsPlanned out profile start origin a
  undenied-IsPlanned s a (a', v, x, y, on) z d = (
    v,
    plan_denial-none a v (subst (λ o. Nodes.plan_denial a o ≡ none) y d),
    subst (λ b. IsVerdictOn out profile start origin b v) (some-injective _ _ (sym x ∙ z)) on,
  )

  step-Invariant :
      (node : Node) (s s' : AgentState) (w w' : S)
      → run_node out node s w ≡ some (s', w')
      → Reaches out start origin node s w
      → Invariant out profile start origin node s
      → InvariantAlong out profile start origin (successor node s') s'
  unfolding run_node successor
  step-Invariant load_context s s' w w' h t i = plain s' (
      kept out profile start origin s s' (load_context-kept out profile s s' w w' h (i.0))
        (i.0, i.1))
  step-Invariant score_finding s s' w w' h t i =
      plain s'
        (kept out profile start origin s s' (score_finding-kept out profile s s' w w' h) (i.0, i.1))
  step-Invariant guard_agent_budget s s' w w' h t i = after_budget_guard-Base _ s' (
      kept out profile start origin s s' (guard_agent_budget-kept out profile s s' w w' h)
        (i.0, i.1))
  step-Invariant analyse s s' w w' h t i =
      plain s'
        (kept out profile start origin s s' (analyse-kept out profile s s' w w' h) (i.0, i.1))
  step-Invariant form_hypothesis s s' w w' h t i =
      plain s' (
        kept out profile start origin s s' (form_hypothesis-kept out profile s s' w w' h)
          (i.0, i.1))
  step-Invariant propose_action s s' w w' h t i =
      let (plan, p, ps, e, r) = propose_action-cases out s s' w w' h in
      let b =
        kept out profile start origin s s' (propose_action-kept out profile s s' w w' h)
          (i.0, i.1) in
      (
        b.0,
        b.1,
        subst (λ q. Proposed out profile start origin q) (sym r)
            (proposed-Proposed s w plan p ps e t),
      )
  step-Invariant validate_action s s' w w' h t i = elim (validate_action-cases out s s' w w' h) [
    | inl (a, v, x, e, r) ↦
        subst (λ q. InvariantAlong out profile start origin (after_validation q.validation) q)
          (sym r)
          (blocked-Invariant s a v plan_rejected (plan_denial-approved a s.plan_validation v e)
            (i.0, i.1))
    | inr (a, policy, other, x, e, y, z, r) ↦
        subst (λ q. InvariantAlong out profile start origin (after_validation q.validation) q)
          (sym r)
          (judged-Invariant s a _ x
            (λ p. (
              (
                policy,
                y,
                subst (λ t. (validate (from_document policy (some t)) a).approved ≡ true)
                    (some-injective _ _ (sym z ∙ i.0)) p,
              ),
              undenied-IsPlanned s a (i.2) x e,
            ))
            (i.0, i.1))
  ]
  step-Invariant execute s s' w w' h t i =
      let k = execute_action-kept out profile s s' w w' h in
      let (a, e, p) = i.2 in
      let b = kept out profile start origin s s' (k.0, k.1) (i.0, i.1) in
      (b.0, b.1, (a, k.2 ∙ e, p))
  step-Invariant collect_evidence s s' w w' h t i =
      let (a, x, evidence, e, r, k) = collect_evidence-recorded out profile s s' w w' h in
      let (a', e', p) = i.2 in
      let allowed : IsAllowed out profile start origin a =
        subst (λ q. IsAllowed out profile start origin q) (some-injective _ _ (sym e' ∙ e)) p in
      (
        k ∙ i.0,
        recorded_action-IsLawful out profile start origin s a x evidence _ r (i.1) allowed,
        tt,
      )
  step-Invariant reevaluate s s' w w' h t i =
      after_reevaluation-Base _ s'
        (kept out profile start origin s s' (reevaluate-kept out profile s s' w w' h) (i.0, i.1))
  step-Invariant report s s' w w' h t i =
      (kept out profile start origin s s' (build_report-kept out profile s s' w w' h) (i.0, i.1)).1

  abbrev RecordsLawful : RunEnd S → Type 0
  RecordsLawful r =
      (s : AgentState) (w : S)
      → r ≡ finished s w
      → All (IsLawful out profile start origin) s.action_history

  along-RecordsLawful :
      (n : ℕ) (edge : Edge) (s : AgentState) (w : S)
      → InvariantAlong out profile start origin edge s
      → ((node : Node) → edge ≡ to node → Reaches out start origin node s w)
      → ((node : Node) (s : AgentState) (w : S)
          → Reaches out start origin node s w
          → Invariant out profile start origin node s
          → RecordsLawful (run out n node s w))
      → RecordsLawful (along (run out n) edge s w)
  unfolding along
  along-RecordsLawful n (to node) s w i t ih s' w' e = ih node s w (t node refl) i s' w' e
  along-RecordsLawful n finish s w i t ih s' w' e =
      subst (λ q. All (IsLawful out profile start origin) q) (ground arith) i
  along-RecordsLawful n key_error s w i t ih s' w' e = absurd (ground arith)

  records :
      (n : ℕ) (node : Node) (s : AgentState) (w : S)
      → Reaches out start origin node s w
      → Invariant out profile start origin node s
      → RecordsLawful (run out n node s w)
  unfolding run followed
  records zero node s w t i = λ s1 w1 h. absurd (ground arith)
  records (suc n) node s w t i = elim (Option-cases (run_node out node s w)) [
    | inl e ↦ rw e (λ s1 w1 h. absurd (ground arith))
    | inr ((s1, w1), e) ↦ rw e (
        along-RecordsLawful n (successor node s1) s1 w1 (step-Invariant node s s1 w w1 e t i)
          (λ next. follows node next s s1 w w1 t e) (records n))
  ]

  -- In a run of the graph that starts with a target profile and an empty history, every action
  -- that the final state records with an execution is one that the policy document in force
  -- approves for that profile, and is the first step of a plan that the plan validator approved in
  -- a state in which the run came to the proposal of an action.
  pub graph_executes_approved :
      (s' : AgentState) (w' : S)
      → start.target_profile ≡ some profile
      → start.action_history ≡ []
      → invoke out start origin ≡ finished s' w'
      → All (IsLawful out profile start origin) s'.action_history
  graph_executes_approved s' w' p h e =
      records 128 load_context start origin starts (p, rw h tt, tt) s' w' e
