-- ===== src/Agent/Graph/Steps.antt =====
-- What the nodes that propose and validate an action do to the state, read backwards.
use cft_security_agent.Prelude.{
  ◌≡◌, refl, ◌⊎◌, inl, inr, Option, some, none, List, [], ◌∷◌, arith, Option-cases,
}
use cft_security_agent.Schemas.Action.{ActionProposal, ValidationResult}
use cft_security_agent.Schemas.AgentLoop.{DynamicPlan, PlannedAction, plan_rejected}
use cft_security_agent.Schemas.Target.{TargetProfile}
use cft_security_agent.Schemas.State.{AgentState}
use cft_security_agent.Validator.{validate}
use cft_security_agent.Validator.Document.{Policy, from_document}
use cft_security_agent.Agent.Outside.{Outside, ◌>>=◌, return, required}
use cft_security_agent.Agent.Nodes

pub bound :
    {A B : Type 0} (o : Option A) (f : A → Option B) {b : B}
    → (elim o [ none ↦ none | some a ↦ f a ]) ≡ some b
    → (a : A) × (o ≡ some a) × (f a ≡ some b)
bound none f h = absurd (ground arith)
bound (some a) f h = (a, refl, h)

pub required-eq-some :
    {S A : Type 0} (o : Option A) (w : S) {r : A × S} → required o w ≡ some r → o ≡ some (r.0)
required-eq-some none w h = absurd (ground arith)
required-eq-some (some a) w h = ground arith

module _ {S : Type 0} (out : Outside S) (s s' : AgentState) (w w' : S) where
  proposed_first :
      (plan : DynamicPlan) (w1 : S) (steps : List PlannedAction)
      → plan.steps ≡ steps
      → (Nodes.first_action out steps >>= λ proposal. return (Nodes.proposed s plan proposal)) w1
        ≡ some (s', w')
      → (plan' : DynamicPlan) × (p : PlannedAction) × (ps : List PlannedAction) × (plan'.steps
          ≡ p ∷ ps)
        × (s' ≡ Nodes.proposed s plan' p.action)
  proposed_first plan w1 [] e h = absurd (ground arith)
  proposed_first plan w1 (p ∷ ps) e h = (plan, p, ps, e, ground arith)

  pub propose_action-cases :
      Nodes.propose_action out s w ≡ some (s', w')
      → (plan : DynamicPlan) × (p : PlannedAction) × (ps : List PlannedAction) × (plan.steps
          ≡ p ∷ ps)
        × (s' ≡ Nodes.proposed s plan p.action)
  unfolding Nodes.propose_action
  propose_action-cases h =
      let (x1, e1, h1) = bound (out.check_cancelled w) _ h in
      let (x2, e2, h2) = bound (required s.analysis x1.1) _ h1 in
      let (x3, e3, h3) = bound (required s.hypothesis x2.1) _ h2 in
      let (x4, e4, h4) = bound (out.model.build_plan s x2.0 x3.0 x3.1) _ h3 in
      proposed_first x4.0 x4.1 x4.0.steps refl h4

  pub validate_action-cases :
      Nodes.validate_action out s w ≡ some (s', w')
      → ((a : ActionProposal) × (v : ValidationResult) × (s.proposed_action ≡ some a)
          × (Nodes.plan_denial a s.plan_validation ≡ some v)
          × (s' ≡ Nodes.blocked s a v plan_rejected))
        ⊎ ((a : ActionProposal) × (policy : Policy) × (profile : TargetProfile) × (s.proposed_action
              ≡ some a)
            × (Nodes.plan_denial a s.plan_validation ≡ none)
            × (out.policy ≡ some policy)
            × (s.target_profile ≡ some profile)
            × (s' ≡ Nodes.judged s a (validate (from_document policy (some profile)) a)))
  unfolding Nodes.validate_action
  validate_action-cases h =
      let (x1, e1, h1) = bound (out.check_cancelled w) _ h in
      let (x2, e2, h2) = bound (required s.proposed_action x1.1) _ h1 in
      elim (Option-cases (Nodes.plan_denial x2.0 s.plan_validation)) [
        | inl e ↦
            let h3 : Nodes.policy_verdict out s x2.0 none x2.1 ≡ some (s', w') =
              ground (arith, e, h2) in
            let (x3, e3, h4) = bound (required s.target_profile x2.1) _ h3 in
            let (x4, e4, h5) = bound (required out.policy x3.1) _ h4 in
            inr (
              x2.0,
              x4.0,
              x3.0,
              required-eq-some _ _ e2,
              e,
              required-eq-some _ _ e4,
              required-eq-some _ _ e3,
              ground arith,
            )
        | inr (v, e) ↦ inl (x2.0, v, required-eq-some _ _ e2, e, ground (arith, e))
      ]
