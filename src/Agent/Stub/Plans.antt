-- ===== src/Agent/Stub/Plans.antt =====
-- The plans of the deterministic model pass the two validators of plans.
use cft_security_agent.Prelude.{
  ◌≤◌, String, ◌≡◌, ◌≢◌, inl, inr, refl, Bool, false, if◌then◌else◌, subst, true, Option, some,
  none, List, arith, Option-cases, text_eq, or_default, ◌==◌,
}
use cft_security_agent.Schemas.Action.{ActionProposal, Value}
use cft_security_agent.Schemas.AgentLoop.{DynamicPlan, PlannedAction, Hypothesis}
use cft_security_agent.Schemas.Target.{TargetProfile, RuntimeServiceMap}
use cft_security_agent.Schemas.State.{AgentState}
use cft_security_agent.Agent.Planning.{validate, remaining_steps, runtime_scoped}
use cft_security_agent.Agent.Planning.Approval.{IsConfined, SessionFits, approved_iff_IsConfined}
use cft_security_agent.Agent.Consistency.{
  consistency_error, same_numbers, range, set_size, home_error,
}
use cft_security_agent.Agent.Stub.{session_of, plan_for, action_for, propose_action, build_plan}
use cft_security_agent.Agent.Stub.Choices.{
  Proposal, proposal_for, proposal, is_missing_user_finding, is_unvalidated_password_finding,
  is_react_dangerous_html_finding,
}

differs : (a b : String) → (a == b) ≡ false → a ≢ b
differs a b e h = ground (arith, text_eq.same_iff a b)

-- a proposal, if there is one, is no lab command
abbrev NoCommand : Option Proposal → Type 0
NoCommand o = (p : Proposal) → o ≡ some p → p.tool ≢ "sandbox_command"

either_way :
    (b : Bool) (x y : Option Proposal) → NoCommand x → NoCommand y → NoCommand (if b then x else y)
either_way true x y p q = p
either_way false x y p q = q

module _ (normalize_path : String → Option String) where
  proposal-NoCommand :
      (tool purpose expected : String) (parameters : Option (List (String × Value)))
      → (tool == "sandbox_command") ≡ false
      → NoCommand (proposal normalize_path tool purpose expected parameters)
  unfolding proposal
  proposal-NoCommand tool purpose expected none e p q = absurd (ground arith)
  proposal-NoCommand tool purpose expected (some ps) e p q =
      ground (arith, differs tool "sandbox_command" e)

  proposal_for-NoCommand :
      (s : AgentState) (h : Hypothesis) (profile : TargetProfile)
      → NoCommand (proposal_for normalize_path s h profile)
  unfolding proposal_for
  proposal_for-NoCommand s h profile =
      either_way (or_default s.finding.service "" == "force-deny") _ _
        (proposal-NoCommand "unknown_tool" _ _ _ refl)
        (either_way (is_missing_user_finding s.finding.rule_id) _ _
          (proposal-NoCommand "inspect_dockerfile_user" _ _ _ refl)
          (either_way (is_unvalidated_password_finding s.finding.rule_id) _ _
            (proposal-NoCommand "inspect_python_password_assignment" _ _ _ refl)
            (either_way (is_react_dangerous_html_finding s.finding.rule_id) _ _
              (proposal-NoCommand "inspect_react_dangerous_html_flow" _ _ _ refl)
              (proposal-NoCommand "safe_noop" _ _ _ refl))))

session_fits :
    (r : Option RuntimeServiceMap) (steps : List PlannedAction)
    → runtime_scoped steps ≡ false
    → SessionFits (session_of r) r steps
session_fits none steps e = e
session_fits (some r) steps e = refl

plan_IsConfined :
    (s : AgentState) (h : Hypothesis) (profile : TargetProfile) (p : Proposal)
    → s.hypothesis ≡ some h
    → 1 ≤ remaining_steps s
    → p.tool ≢ "sandbox_command"
    → IsConfined (plan_for s h (action_for s profile p)) s profile
unfolding plan_for action_for
plan_IsConfined s h profile p e left t = record {
  on_target = refl;
  in_environment = refl;
  about = rw e refl;
  budget_left = left;
  max_steps = left;
  steps_fit = left;
  session = session_fits s.runtime_services _ refl;
  steps = (
    record { in_order = refl; on_target = refl; in_environment = refl; confined = inr (t, tt) },
    tt,
  );
}

plan_IsConsistent :
    (s : AgentState) (h : Hypothesis) (a : ActionProposal)
    → consistency_error (plan_for s h a) ≡ none
unfolding plan_for consistency_error same_numbers range set_size home_error
plan_IsConsistent s h a =
    ground (arith, text_eq.same_iff a.target a.target, text_eq.same_iff a.environment a.environment)

module _ (normalize_path : String → Option String) (target : Option TargetProfile) where
  -- Where the state has a target profile, the hypothesis and a step left, a plan that the
  -- deterministic model builds is consistent and is approved by the validator of plans.
  pub stub_plan_approved :
      (s : AgentState) (h : Hypothesis) (profile : TargetProfile) (plan : DynamicPlan)
      → s.target_profile ≡ some profile
      → s.hypothesis ≡ some h
      → 1 ≤ remaining_steps s
      → build_plan normalize_path target s h ≡ some plan
      → (consistency_error plan ≡ none) × ((validate plan s).approved ≡ true)
  unfolding build_plan propose_action
  stub_plan_approved s h profile plan e g left b =
      elim (Option-cases (proposal_for normalize_path s h profile)) [
        | inl n ↦ absurd (ground (arith, e, n))
        | inr (p, q) ↦
            let safe : p.tool ≢ "sandbox_command" =
              proposal_for-NoCommand normalize_path s h profile p q in
            let same : plan_for s h (action_for s profile p) ≡ plan = ground (arith, e, q, b) in
            subst (λ d. (consistency_error d ≡ none) × ((validate d s).approved ≡ true)) same
              (
                plan_IsConsistent s h (action_for s profile p),
                (approved_iff_IsConfined (plan_for s h (action_for s profile p)) s profile e).1
                    (plan_IsConfined s h profile p g left safe),
              )
      ]
