-- ===== src/Agent/Nodes.antt =====
-- agent/nodes.py: the nodes of the agent's graph. A node reads the state and gives the state with
-- its update merged in; `none` is an exception.
pub mod Collect
use Prim.Native.String.{◌++◌}
use cft_security_agent.Prelude.{
  ℕ, String, Bool, true, false, not, ◌&&◌, Option, some, none, List, [], ◌∷◌, max, min, map,
  if◌then◌else◌, ◌==◌, text_eq, or_default, is_some, ◌⊎◌, inl, inr,
}
use mathlib.Core.List
use cft_security_agent.Schemas.Finding.{Finding, ArchitectureContext}
use cft_security_agent.Schemas.Action.{ActionProposal, ValidationResult}
use cft_security_agent.Schemas.Execution.{ExecutionResult, ExecutionStatus, is_completed}
use cft_security_agent.Schemas.Evidence.{Evidence}
use cft_security_agent.Schemas.AgentLoop.{
  StopReason, step_budget_exhausted, wall_clock_budget_exhausted, plan_rejected, policy_blocked,
  outcome_text, inconclusive, PlannedAction, DynamicPlan, PlanValidationResult, AnalysisResult,
  ReevaluationResult, AgentActionRecord, DecisionOutcome, AgentDecisionRecord,
}
use cft_security_agent.Schemas.Report.{status_text}
use cft_security_agent.Schemas.Target.{TargetProfile, RuntimeServiceMap}
use cft_security_agent.Schemas.State.{AgentState}
use cft_security_agent.Validator.{validate}
use cft_security_agent.Validator.Document.{Policy, from_document}
use cft_security_agent.Scoring.{score}
use cft_security_agent.Guard.{evaluate_evidence, GuardDecision}
use cft_security_agent.Executor.Approvals.{record_approval}
use cft_security_agent.Interpreter.{execution_text}
use cft_security_agent.Agent.Planning.{validate as validate_plan}
use cft_security_agent.Agent.Loop.{
  budget_stop_reason, wall_clock_exhausted, apply_budget_to_reevaluation, decision_record,
  plan_id_of,
}
use cft_security_agent.Agent.Context.{resolve_service}
use cft_security_agent.Agent.Outside.{
  Outside, AgentExecutor, AgentModel, Effect, ◌>>=◌, ◌>>◌, return, required, fail,
}
use cft_security_agent.Reporting.{build_final_report}

abbrev text_or : Option String → String → String
text_or none d = d
text_or (some s) d = if s == "" then d else s

abbrev pub session_id_of : Option RuntimeServiceMap → Option String → Option String
session_id_of none current = current
session_id_of (some r) current = some r.session_id

-- `min(8, max(1, value))`
abbrev pub bounded_steps : ℕ → ℕ
bounded_steps n = min 8 (max 1 n)

abbrev pub plain_context : String → ArchitectureContext
plain_context service = record {
  service = service;
  public_exposure = false;
  criticality = "unknown";
  trust_zone = none;
  connected_services = [];
  databases = [];
  critical_paths = [];
  authentication = "unknown";
  blast_radius = "unknown";
}

abbrev budget_message : StopReason → String
budget_message step_budget_exhausted =
    "Agent step budget was exhausted before the next reasoning iteration."
budget_message _ = "Agent wall-clock budget was exhausted before the next reasoning iteration."

-- the update of `guard_agent_budget`
unfoldable pub guarded : AgentState → Option StopReason → AgentState
guarded s none = record s { status = some "budget_ok" }
guarded s (some reason) = record s {
  status = some "inconclusive";
  stop_reason = some reason;
  decision_history = List.◌++◌ s.decision_history (
      record {
        step = s.iteration_count;
        outcome = DecisionOutcome.stop;
        reason = budget_message reason;
        evidence_ids = map (λ (e : Evidence). e.id) s.evidence;
        plan_id = plan_id_of s.dynamic_plan;
        stop_reason = some reason;
      }
      ∷ []);
}

-- the result for a plan that was refused
unfoldable pub plan_denial : ActionProposal → Option PlanValidationResult → Option ValidationResult
plan_denial action none = none
plan_denial action (some p) =
    if p.approved
    then none
    else some (record {
      approved = false;
      action_id = action.id;
      reason = p.reason;
      policy_rules = p.rules;
    })

-- the update where the action is refused
unfoldable pub blocked : AgentState → ActionProposal → ValidationResult → StopReason → AgentState
blocked s action validation reason = record s {
  validation = some validation;
  action_history = List.◌++◌ s.action_history (
      record {
        step = action.iteration;
        plan_id = plan_id_of s.dynamic_plan;
        action = action;
        validation = validation;
        execution = none;
        evidence_ids = [];
      }
      ∷ []);
  stop_reason = some reason;
  status = some "policy_blocked";
}

-- the update for the verdict of the policy
unfoldable pub judged : AgentState → ActionProposal → ValidationResult → AgentState
judged s action validation =
    if validation.approved
    then record s { validation = some validation; status = some "approved" }
    else blocked s action validation policy_blocked

-- the update of `propose_action`
unfoldable pub proposed : AgentState → DynamicPlan → ActionProposal → AgentState
proposed s plan proposal = record s {
  dynamic_plan = some plan;
  plan_history = List.◌++◌ s.plan_history (plan ∷ []);
  plan_validation = some (validate_plan plan s);
  proposed_action = some proposal;
  iteration_count = proposal.iteration;
  status = some "action_proposed";
}

module _ {S : Type 0} (out : Outside S) where
  abbrev time : Effect S ℕ
  time w = some (out.now w)

  abbrev profile_of : Option TargetProfile → Effect S TargetProfile
  profile_of none = required out.target
  profile_of (some p) = return p

  abbrev resolved : TargetProfile → Option String → Effect S (Option String)
  resolved profile none = fail
  resolved profile (some path) = return (resolve_service out.parts profile path)

  abbrev found_service : TargetProfile → String → Effect S String
  found_service profile file = do
    found ← resolved profile (out.normalize_path file)
    return (text_or found "unknown")

  -- `finding.service or target_profile.resolve_service(finding.file) or "unknown"`
  unfoldable pub service_of : Finding → TargetProfile → Effect S String
  service_of finding profile =
      if text_or finding.service "" == ""
      then found_service profile finding.file
      else return (text_or finding.service "")

  abbrev architecture_of :
      Finding → TargetProfile → Option ArchitectureContext → Effect S ArchitectureContext
  architecture_of finding profile none = do
    service ← service_of finding profile
    return (plain_context service)
  architecture_of finding profile (some c) = return c

  abbrev started : Option ℕ → Effect S ℕ
  started none = time
  started (some t) = return t

  unfoldable pub load_context : AgentState → Effect S AgentState
  load_context s = do
    out.check_cancelled
    profile ← profile_of s.target_profile
    context ← architecture_of s.finding profile s.architecture_context
    start ← started s.started_at
    let max_iterations = or_default s.max_iterations out.max_iterations
    return (record s {
      target_profile = some profile;
      code_context = some (
          text_or s.code_context (
            "Synthetic code context for "
            ++ (s.finding.file ++ ". Used only to validate orchestration.")));
      architecture_context = some context;
      max_iterations = some max_iterations;
      max_steps = some (bounded_steps (or_default s.max_steps max_iterations));
      started_at = some start;
      wall_clock_budget = some (or_default s.wall_clock_budget out.wall_clock);
      sandbox_session_id = session_id_of s.runtime_services s.sandbox_session_id;
      status = some "context_loaded";
    })

  unfoldable pub score_finding : AgentState → Effect S AgentState
  score_finding s = do
    out.check_cancelled
    context ← required s.architecture_context
    return (record s {
      cvss = some (score s.finding context).0;
      context_priority = some (score s.finding context).1;
      status = some "scored";
    })

  unfoldable pub guard_agent_budget : AgentState → Effect S AgentState
  guard_agent_budget s = do
    out.check_cancelled
    now ← time
    return (guarded s (budget_stop_reason s now))

  unfoldable pub analyse : AgentState → Effect S AgentState
  analyse s = do
    out.check_cancelled
    analysis ← out.model.analyse s
    return (record s { analysis = some analysis; status = some "analysed" })

  unfoldable pub form_hypothesis : AgentState → Effect S AgentState
  form_hypothesis s = do
    out.check_cancelled
    analysis ← required s.analysis
    hypothesis ← out.model.form_hypothesis s analysis
    return (record s { hypothesis = some hypothesis; status = some "hypothesis_ready" })

  -- `plan.steps[0].action`
  abbrev pub first_action : List PlannedAction → Effect S ActionProposal
  first_action [] = fail
  first_action (p ∷ ps) = return p.action

  unfoldable pub propose_action : AgentState → Effect S AgentState
  propose_action s = do
    out.check_cancelled
    analysis ← required s.analysis
    hypothesis ← required s.hypothesis
    plan ← out.model.build_plan s analysis hypothesis
    proposal ← first_action plan.steps
    return (proposed s plan proposal)

  abbrev pub policy_verdict :
      AgentState → ActionProposal → Option ValidationResult → Effect S AgentState
  policy_verdict s action (some denial) = return (blocked s action denial plan_rejected)
  policy_verdict s action none = do
    profile ← required s.target_profile
    policy ← required out.policy
    return (judged s action (validate (from_document policy (some profile)) action))

  unfoldable pub validate_action : AgentState → Effect S AgentState
  validate_action s = do
    out.check_cancelled
    action ← required s.proposed_action
    policy_verdict s action (plan_denial action s.plan_validation)
