-- ===== src/Agent/Stub.antt =====
-- agent/model.py: the deterministic model, which proposes one check for each kind of finding.
pub mod Plans
pub mod Choices
use Prim.Native.String.{◌++◌}
use cft_security_agent.Prelude.{
  ℕ, suc, String, Bool, true, false, not, ◌&&◌, ◌||◌, Option, some, none, List, [], ◌∷◌,
  if◌then◌else◌, ◌==◌, nat_eq, text_eq, leb, or_default, non_empty, is_some, keep, lookup, lower,
  show, contains,
}
use mathlib.Core.List
use cft_security_agent.Schemas.Finding.{Finding, ArchitectureContext}
use cft_security_agent.Schemas.Action.{Value, text, ActionProposal}
use cft_security_agent.Schemas.Execution.{ExecutionResult, is_completed}
use cft_security_agent.Schemas.Evidence.{Evidence, Verdict}
use cft_security_agent.Schemas.AgentLoop.{
  Outcome, confirmed, rejected, inconclusive, continue, PlannedAction, DynamicPlan, AnalysisResult,
  Hypothesis, ReevaluationResult,
}
use cft_security_agent.Schemas.Target.{TargetProfile, RuntimeServiceMap}
use cft_security_agent.Schemas.State.{AgentState}
use cft_security_agent.Executor.Capabilities.{str_of}
use cft_security_agent.Guard.{evaluate_evidence, GuardDecision}
use cft_security_agent.Agent.Stub.Choices.{Proposal, proposal_for, build_action_id, build_plan_id}

abbrev context_signals : Option ArchitectureContext → List String
context_signals none = []
context_signals (some c) = List.◌++◌ (if c.public_exposure then "public_exposure" ∷ [] else []) (
    List.◌++◌ (if non_empty c.databases then "database_connectivity" ∷ [] else []) (
      if contains (lower c.criticality) ("high" ∷ "critical" ∷ [])
      then ("criticality:" ++ lower c.criticality) ∷ []
      else []))

unfoldable pub analyse : AgentState → AnalysisResult
analyse s = record {
  summary =
      "Finding '"
      ++ (s.finding.title ++ "' requires controlled verification before a final conclusion.");
  risk_signals =
      ("source:" ++ s.finding.source)
      ∷ ("rule:" ++ s.finding.rule_id)
      ∷ context_signals s.architecture_context;
  needs_verification = true;
}

-- the id is `hypothesis-` and a fresh one
unfoldable pub form_hypothesis : String → AgentState → AnalysisResult → Hypothesis
form_hypothesis fresh_id s analysis = record {
  id = "hypothesis-" ++ fresh_id;
  statement =
      "The finding '"
      ++ (s.finding.title ++ "' may be valid and requires controlled verification.");
  based_on = analysis.summary ∷ List.◌++◌ analysis.risk_signals (("file:" ++ s.finding.file) ∷ []);
  expected_evidence = "A structured result from an approved safe verification action.";
  confidence = 500;
}

abbrev pub session_of : Option RuntimeServiceMap → Option String
session_of none = none
session_of (some r) = some r.session_id

-- the plan of one step for an action
unfoldable pub plan_for : AgentState → Hypothesis → ActionProposal → DynamicPlan
plan_for s hypothesis action = record {
  id = build_plan_id s.finding.id action.iteration;
  target = action.target;
  environment = action.environment;
  hypothesis_id = hypothesis.id;
  goal = "Collect controlled Evidence for: " ++ hypothesis.statement;
  max_steps = 1;
  sandbox_session_id = session_of s.runtime_services;
  continuation_reason =
      "Continue only when the approved observation is insufficient to reach a terminal Evidence-backed verdict.";
  stop_conditions =
      "confirmed_by_evidence" ∷ "rejected_by_evidence" ∷ "policy_blocked" ∷ "step_limit_reached"
      ∷ [];
  steps =
      record {
        index = 1;
        action = action;
        expected_observation = action.expected_evidence;
        continue_if = "The observation is insufficient for a terminal verdict.";
      }
      ∷ [];
}

-- the action for a profile, and what is chosen for the finding
unfoldable pub action_for : AgentState → TargetProfile → Proposal → ActionProposal
action_for s profile p = record {
  id = build_action_id s.finding.id (suc s.iteration_count);
  tool = p.tool;
  target = profile.id;
  environment = profile.environment;
  iteration = suc s.iteration_count;
  parameters = p.parameters;
  purpose = p.purpose;
  expected_evidence = p.expected_evidence;
  service = none;
  endpoint = none;
}

module _ (normalize_path : String → Option String) (target : Option TargetProfile) where
  -- `_target_profile`
  abbrev pub profile_of : Option TargetProfile → Option TargetProfile
  profile_of none = target
  profile_of (some p) = some p

  abbrev chosen : AgentState → Hypothesis → Option TargetProfile → Option ActionProposal
  chosen s hypothesis none = none
  chosen s hypothesis (some profile) = elim (proposal_for normalize_path s hypothesis profile) [
    | none ↦ none
    | some p ↦ some (action_for s profile p)
  ]

  -- `propose_action`; `none` is an exception
  unfoldable pub propose_action : AgentState → Hypothesis → Option ActionProposal
  propose_action s hypothesis = chosen s hypothesis (profile_of s.target_profile)

  -- `build_plan`
  unfoldable pub build_plan : AgentState → Hypothesis → Option DynamicPlan
  build_plan s hypothesis = elim (propose_action s hypothesis) [
    | none ↦ none
    | some action ↦ some (plan_for s hypothesis action)
  ]

abbrev answer : Outcome → String → ReevaluationResult
answer status explanation = record { status = status; explanation = explanation }

-- `max_steps`, else `max_iterations`, else 2
abbrev pub iteration_limit : AgentState → ℕ
iteration_limit s = or_default s.max_steps (or_default s.max_iterations 2)

abbrev pub at_limit : AgentState → Bool
at_limit s = leb (iteration_limit s) s.iteration_count

-- the verdict of the last record of the action that has one
unfoldable pub last_verdict : String → List Evidence → Option Verdict
last_verdict action_id [] = none
last_verdict action_id (e ∷ es) = elim (last_verdict action_id es) [
  | some v ↦ some v
  | none ↦ if e.action_id == action_id then e.verdict else none
]

abbrev failed_run : AgentState → ReevaluationResult
failed_run s =
    if at_limit s
    then answer inconclusive "Approved verification did not complete successfully."
    else answer continue "Execution failed; another controlled iteration is allowed."

abbrev unproven : AgentState → ReevaluationResult
unproven s =
    if at_limit s
    then answer inconclusive
        "Execution completed, but capability-specific Evidence did not establish a confirmed or rejected verdict."
    else answer continue
        "Execution completed, but execution success is not a vulnerability verdict. More controlled Evidence is required."

abbrev established : String → String
established verdict =
    "Capability-specific structured Evidence established the finding verdict: " ++ (verdict ++ ".")

abbrev after_capability : AgentState → Option Verdict → ReevaluationResult
after_capability s (some Verdict.confirmed) = answer confirmed (established "confirmed")
after_capability s (some Verdict.rejected) = answer rejected (established "rejected")
after_capability s _ = unproven s

abbrev after_stub : AgentState → String → ReevaluationResult
after_stub s outcome =
    if outcome == "confirmed"
    then answer confirmed "Controlled evidence confirmed the hypothesis."
    else if outcome == "rejected"
    then answer rejected "Controlled evidence rejected the hypothesis."
    else if at_limit s
    then answer inconclusive "Evidence remained insufficient until the iteration limit."
    else answer continue "More controlled evidence is required."

module _ (print : Value → String) where
  abbrev test_outcome : Option Value → String
  test_outcome none = "confirmed"
  test_outcome (some v) = str_of print v

  unfoldable pub unguarded : AgentState → ExecutionResult → ActionProposal → ReevaluationResult
  unguarded s execution action =
      if not (is_completed execution.status && execution.exit_code == 0)
      then failed_run s
      else if not (action.tool == "safe_noop")
      then after_capability s (last_verdict action.id s.evidence)
      else after_stub s (test_outcome (lookup "test_outcome" action.parameters))

  abbrev guarded_result :
      AgentState → ExecutionResult → ActionProposal → Option GuardDecision → ReevaluationResult
  guarded_result s execution action none = unguarded s execution action
  guarded_result s execution action (some d) = answer d.status d.explanation

  -- `reevaluate`; `none` is the exception where there is no execution or no action
  unfoldable pub reevaluate : AgentState → Option ReevaluationResult
  reevaluate s = elim s.execution [
    | none ↦ none
    | some execution ↦ elim s.proposed_action [
      | none ↦ none
      | some action ↦ some (
          if action.tool == "safe_noop"
          then unguarded s execution action
          else guarded_result s execution action (evaluate_evidence s))
    ]
  ]
