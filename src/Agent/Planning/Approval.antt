-- ===== src/Agent/Planning/Approval.antt =====
-- The validator of plans approves exactly the plans that are confined to the agent's state.
use cft_security_agent.Prelude.{
  ℕ, ◌≤◌, suc, String, ◌≡◌, ◌↔◌, true, false, Option, some, none, List, [], ◌∷◌, arith, text_eq,
  length,
}
use cft_security_agent.Schemas.Target.{TargetProfile, RuntimeServiceMap}
use cft_security_agent.Schemas.AgentLoop.{PlannedAction, DynamicPlan, Hypothesis}
use cft_security_agent.Schemas.State.{AgentState}
use cft_security_agent.Agent.Planning.{
  steps_error, session_error, runtime_scoped, matches_hypothesis, validate_scope, validate,
  remaining_steps,
}
use cft_security_agent.Agent.Planning.Scope.{InScope, step_error_iff}

-- Every step is in scope, at the iteration that its place gives it.
abbrev pub StepsInScope : TargetProfile → Option RuntimeServiceMap → ℕ → List PlannedAction → Type 0
StepsInScope profile runtime expected [] = Unit
StepsInScope profile runtime expected (p ∷ ps) =
    InScope profile runtime expected p.action × StepsInScope profile runtime (suc expected) ps

steps_error_iff :
    (profile : TargetProfile) (runtime : Option RuntimeServiceMap) (expected : ℕ)
    (ps : List PlannedAction)
    → (steps_error profile runtime expected ps ≡ none) ↔ StepsInScope profile runtime expected ps
unfolding steps_error
steps_error_iff profile runtime expected [] = ground arith
steps_error_iff profile runtime expected (p ∷ ps) = ground (
  arith,
  step_error_iff profile runtime expected p.action,
  steps_error_iff profile runtime (suc expected) ps,
)

-- The session of the plan is the current one, or no session is named and none is needed.
abbrev pub SessionFits : Option String → Option RuntimeServiceMap → List PlannedAction → Type 0
SessionFits (some session) (some r) steps = session ≡ r.session_id
SessionFits (some session) none steps = ⊥
SessionFits none runtime steps = runtime_scoped steps ≡ false

session_error_iff :
    (session : Option String) (runtime : Option RuntimeServiceMap) (steps : List PlannedAction)
    → (session_error session runtime steps ≡ none) ↔ SessionFits session runtime steps
unfolding session_error
session_error_iff (some session) none steps = ground arith
session_error_iff (some session) (some r) steps =
    ground (arith, text_eq.same_iff session r.session_id)
session_error_iff none runtime steps = ground arith

abbrev pub IsAbout : DynamicPlan → Option Hypothesis → Type 0
IsAbout plan none = ⊥
IsAbout plan (some h) = plan.hypothesis_id ≡ h.id

matches_hypothesis_iff :
    (plan : DynamicPlan) (h : Option Hypothesis)
    → (matches_hypothesis plan h ≡ true) ↔ IsAbout plan h
matches_hypothesis_iff plan none = ground arith
matches_hypothesis_iff plan (some h) = ground (arith, text_eq.same_iff plan.hypothesis_id h.id)

-- The plan stays within the target, the hypothesis, the step budget and the runtime of the state.
pub record IsConfined (plan : DynamicPlan) (s : AgentState) (profile : TargetProfile) : Type 0 where
  pub on_target : plan.target ≡ profile.id
  pub in_environment : plan.environment ≡ profile.environment
  pub about : IsAbout plan s.hypothesis
  pub budget_left : 1 ≤ remaining_steps s
  pub max_steps : plan.max_steps ≤ remaining_steps s
  pub steps_fit : length plan.steps ≤ remaining_steps s
  pub session : SessionFits plan.sandbox_session_id s.runtime_services plan.steps
  pub steps : StepsInScope profile s.runtime_services (suc s.iteration_count) plan.steps

-- With a target profile in the state, a plan is approved exactly when it is for that target and
-- environment and for the current hypothesis, fits into the steps that are left, uses the current
-- sandbox session, and each step has the next iteration, stays on the target, and is either a
-- bounded lab command or names only ready services and their allowed endpoints.
pub approved_iff_IsConfined :
    (plan : DynamicPlan) (s : AgentState) (profile : TargetProfile)
    → s.target_profile ≡ some profile
    → ((validate plan s).approved ≡ true) ↔ IsConfined plan s profile
unfolding validate validate_scope
approved_iff_IsConfined plan s profile h = ground (
  arith,
  text_eq.same_iff plan.target profile.id,
  text_eq.same_iff plan.environment profile.environment,
  matches_hypothesis_iff plan s.hypothesis,
  session_error_iff plan.sandbox_session_id s.runtime_services plan.steps,
  steps_error_iff profile s.runtime_services (suc s.iteration_count) plan.steps,
)
