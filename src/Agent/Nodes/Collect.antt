-- ===== src/Agent/Nodes/Collect.antt =====
-- agent/nodes.py, from the validation on: the action runs, its record becomes evidence, and the
-- evidence is judged.
use Prim.Native.String.{◌++◌}
use mathlib.Core.List
use cft_security_agent.Prelude.{
  String, Bool, true, false, not, ◌&&◌, Option, some, none, List, [], ◌∷◌, map, if◌then◌else◌, ◌==◌,
  text_eq, is_some, contains, keep, any, ◌⊎◌, inl, inr,
}
use cft_security_agent.Schemas.Action.{ActionProposal, ValidationResult}
use cft_security_agent.Schemas.Execution.{ExecutionResult, is_completed}
use cft_security_agent.Schemas.Evidence.{Evidence}
use cft_security_agent.Schemas.AgentLoop.{
  StopReason, wall_clock_budget_exhausted, outcome_text, inconclusive, Hypothesis,
  ReevaluationResult, AgentActionRecord,
}
use cft_security_agent.Schemas.Report.{status_text}
use cft_security_agent.Schemas.Target.{RuntimeServiceMap}
use cft_security_agent.Schemas.State.{AgentState}
use cft_security_agent.Guard.{evaluate_evidence, GuardDecision}
use cft_security_agent.Executor.Approvals.{ApprovalRecord, ApprovalStore, record_approval}
use cft_security_agent.Interpreter.{StoredRecord, execution_text, build_evidence}
use cft_security_agent.Interpreter.Surface.{build_http_surface_evidence}
use cft_security_agent.Agent.Loop.{
  wall_clock_exhausted, apply_budget_to_reevaluation, decision_record, plan_id_of,
}
use cft_security_agent.Agent.Outside.{Outside, Effect, ◌>>=◌, ◌>>◌, return, required, fail}
use cft_security_agent.Reporting.{build_final_report}

abbrev is_command : ActionProposal → Bool
is_command a = a.tool == "sandbox_command"

-- a reference that is not in the list yet goes to its end
abbrev pub with_ref : List String → String → List String
with_ref refs ref = if contains ref refs then refs else List.◌++◌ refs (ref ∷ [])

unfoldable pub artifact_refs : ExecutionResult → List String
artifact_refs x = with_ref (with_ref x.artifacts x.evidence_ref) x.audit_ref

abbrev empty_record : StoredRecord
empty_record = record {
  run_id = none;
  action_id = none;
  session_id = none;
  status = none;
  exit_code = none;
  stdout = none;
  stderr = none;
}

abbrev is_text : Option String → String → Bool
is_text none t = false
is_text (some s) t = s == t

-- the record, and `evidence_loaded`
unfoldable pub loaded_record :
    ActionProposal → ExecutionResult → Option StoredRecord → StoredRecord × Bool
loaded_record a x none = (empty_record, false)
loaded_record a x (some r) = (r, is_text r.run_id x.run_id && is_text r.action_id a.id)

abbrev non_empty_text : Option String → Option String
non_empty_text none = none
non_empty_text (some s) = if s == "" then none else some s

unfoldable pub session_of : StoredRecord × Bool → Option String
session_of (r, loaded) = if loaded then non_empty_text r.session_id else none

abbrev pub hypothesis_id_of : ActionProposal → Option Hypothesis → String
hypothesis_id_of a none = "unlinked-action:" ++ a.id
hypothesis_id_of a (some h) = h.id

abbrev or_else : Option String → Option String → Option String
or_else none b = b
or_else (some a) b = some a

abbrev listed : Option Evidence → Option (List Evidence)
listed none = none
listed (some e) = some (e ∷ [])

abbrev observed_or : List Evidence → Option (List Evidence) → Option (List Evidence)
observed_or [] plain = plain
observed_or (e ∷ es) plain = some (e ∷ es)

abbrev pub history_with :
    AgentState
    → ActionProposal
    → ExecutionResult
    → List Evidence
    → Option ValidationResult
    → Option (List AgentActionRecord)
history_with s action execution evidence none = none
history_with s action execution evidence (some validation) = some (
    List.◌++◌ s.action_history (
      record {
        step = action.iteration;
        plan_id = plan_id_of s.dynamic_plan;
        action = action;
        validation = validation;
        execution = some execution;
        evidence_ids =
            map (λ (e : Evidence). e.id)
              (keep (λ (e : Evidence). e.action_id == action.id) evidence);
      }
      ∷ []))

-- the history with the action, where no record has its id
unfoldable pub recorded_action :
    AgentState → ActionProposal → ExecutionResult → List Evidence → Option (List AgentActionRecord)
recorded_action s action execution evidence =
    if any (λ (r : AgentActionRecord). r.action.id == action.id) s.action_history
    then some s.action_history
    else history_with s action execution evidence s.validation

abbrev executed_status : ExecutionResult → String
executed_status x = if is_completed x.status then "executed" else execution_text x.status

module _ {S : Type 0} (out : Outside S) where
  abbrev stored_approval : String ⊎ (ApprovalRecord × ApprovalStore) → Effect S ApprovalStore
  stored_approval (inl message) = fail
  stored_approval (inr (r, approvals)) = return approvals

  abbrev backend_for : ActionProposal → Option String
  backend_for action = if is_command action then some "docker" else none

  -- an executor of its own for the action
  unfoldable pub fresh_executor :
      AgentState → ActionProposal → ValidationResult → Effect S (Unit {0})
  fresh_executor s action validation = do
    approvals ← stored_approval (record_approval out.agent_executor.digest action validation [])
    profile ← required s.target_profile
    out.agent_executor.from_config profile (backend_for action) approvals

  abbrev open_lab_for : AgentState → ActionProposal → Option RuntimeServiceMap → Effect S (Unit {0})
  open_lab_for s action none = return tt
  open_lab_for s action (some runtime) = do
    profile ← required s.target_profile
    out.agent_executor.open_managed_lab runtime profile

  -- the executor of the lab
  unfoldable pub lab_executor : AgentState → ActionProposal → ValidationResult → Effect S (Unit {0})
  lab_executor s action validation = do
    out.agent_executor.record_approval action validation
    if is_command action then open_lab_for s action s.runtime_services else return tt

  abbrev prepare : AgentState → ActionProposal → ValidationResult → Effect S (Unit {0})
  prepare s action validation w =
      if out.agent_executor.is_active w
      then lab_executor s action validation w
      else fresh_executor s action validation w

  abbrev first_result : List ExecutionResult → Effect S ExecutionResult
  first_result [] = fail
  first_result (x ∷ xs) = return x

  abbrev run_action : ActionProposal → Option RuntimeServiceMap → Effect S ExecutionResult
  run_action action none = out.agent_executor.execute action
  run_action action (some runtime) = do
    results ← out.agent_executor.execute_sequence action runtime
    first_result results

  unfoldable pub execute_action : AgentState → Effect S AgentState
  execute_action s = do
    out.check_cancelled
    action ← required s.proposed_action
    validation ← required s.validation
    prepare s action validation
    execution ← run_action action s.runtime_services
    return (record s { execution = some execution; status = some (executed_status execution) })

  -- `execution.workspace_id`, which `ExecutionResult` does not have, is an `AttributeError`
  unfoldable pub sandbox_session : ActionProposal → StoredRecord × Bool → Effect S (Option String)
  sandbox_session action stored =
      if is_command action && not (is_some (session_of stored))
      then fail
      else return (session_of stored)

  -- the evidence of the action
  unfoldable pub gathered :
      AgentState
      → ActionProposal
      → ExecutionResult
      → StoredRecord × Bool
      → Option String
      → (String → String)
      → Option (List Evidence)
  gathered s action execution (r, loaded) session ids =
      let refs = artifact_refs execution in
      let hypothesis_id = hypothesis_id_of action s.hypothesis in
      let plain = listed (
        build_evidence out.readers action execution refs hypothesis_id session (ids "") r loaded) in
      if action.tool == "observe_http_surface" && loaded
      then observed_or
          (build_http_surface_evidence action execution refs hypothesis_id ids out.readers r) plain
      else plain

  abbrev ids_of : Effect S (String → String)
  ids_of w = some (out.fresh_ids w)

  abbrev read_record : ActionProposal → ExecutionResult → Effect S (StoredRecord × Bool)
  read_record action execution w =
      some (loaded_record action execution (out.get_execution execution.evidence_ref w), w)

  unfoldable pub collect_evidence : AgentState → Effect S AgentState
  collect_evidence s = do
    out.check_cancelled
    execution ← required s.execution
    action ← required s.proposed_action
    stored ← read_record action execution
    session ← sandbox_session action stored
    ids ← ids_of
    new ← required (gathered s action execution stored session ids)
    let evidence = List.◌++◌ s.evidence new
    history ← required (recorded_action s action execution evidence)
    return (record s {
      evidence = evidence;
      action_history = history;
      sandbox_session_id = or_else session s.sandbox_session_id;
      status = some "evidence_collected";
    })

  -- the guard does not judge the stub
  unfoldable pub guard_decision : AgentState → Option ActionProposal → Option GuardDecision
  guard_decision s none = none
  guard_decision s (some a) = if a.tool == "safe_noop" then none else evaluate_evidence s

  abbrev result_of : GuardDecision → ReevaluationResult
  result_of d = record { status = d.status; explanation = d.explanation }

  abbrev out_of_time : ReevaluationResult
  out_of_time = record {
    status = inconclusive;
    explanation = "Agent wall-clock budget was exhausted without terminal Evidence.";
  }

  abbrev model_result : AgentState → Effect S (ReevaluationResult × Option StopReason)
  model_result s = do
    result ← out.model.reevaluate s
    now ← λ w. some (out.now w)
    return (apply_budget_to_reevaluation s result now)

  abbrev timely : AgentState → Bool → Effect S (ReevaluationResult × Option StopReason)
  timely s true = return (out_of_time, some wall_clock_budget_exhausted)
  timely s false = model_result s

  -- the result with the stop reason
  abbrev pub reevaluation :
      AgentState → Option GuardDecision → Effect S (ReevaluationResult × Option StopReason)
  reevaluation s (some d) = return (result_of d, d.stop_reason)
  reevaluation s none = do now ← λ w. some (out.now w); timely s (wall_clock_exhausted s now)

  abbrev pub decided : AgentState → ReevaluationResult → Option StopReason → AgentState
  decided s result reason = record s {
    decision_history = List.◌++◌ s.decision_history (decision_record s result reason ∷ []);
    stop_reason = reason;
    status = some (outcome_text result.status);
  }

  unfoldable pub reevaluate : AgentState → Effect S AgentState
  reevaluate s = do
    out.check_cancelled
    judged ← reevaluation s (guard_decision s s.proposed_action)
    return (decided s (judged.0) (judged.1))

  unfoldable pub build_report : AgentState → Effect S AgentState
  build_report s = do
    out.check_cancelled
    let report = build_final_report out.patterns out.print s
    return (record s { final_report = some report; status = some (status_text report.status) })
