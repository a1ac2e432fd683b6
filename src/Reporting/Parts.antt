-- ===== src/Reporting/Parts.antt =====
-- reporting/builder.py: the lists of a report.
use Prim.Native.String.{◌++◌}
use mathlib.Core.List
use cft_security_agent.Prelude.{
  ℕ, zero, suc, String, Bool, true, false, ◌&&◌, Option, some, none, List, [], ◌∷◌, map, non_empty,
  any, if◌then◌else◌, ◌==◌, nat_eq, text_eq, leb, lookup, keys, sorted, size, take_chars, join,
  split_lines, or_default,
}
use cft_security_agent.Schemas.Action.{
  Value, boolean, text, array, Items, no_items, item, ActionProposal, ValidationResult,
}
use cft_security_agent.Schemas.Execution.{ExecutionResult}
use cft_security_agent.Schemas.Evidence.{Evidence, Verdict}
use cft_security_agent.Schemas.AgentLoop.{
  StopReason, step_budget_exhausted, wall_clock_budget_exhausted, AgentActionRecord,
}
use cft_security_agent.Schemas.Report.{
  ReportStatus, confirmed, rejected, inconclusive, policy_blocked, DecisionBasis, agent_budget,
  capability_specific_evidence, validator_policy, iteration_limit, workflow_state, approved, denied,
  SandboxActionSummary, PolicyDecisionSummary,
}
use cft_security_agent.Schemas.State.{AgentState}
use cft_security_agent.Redaction.{Patterns, redact_error_message}
use cft_security_agent.Executor.Capabilities.{str_of}
use cft_security_agent.Gate.Decision.{unique}

-- `redact_error_message` with a positive limit, which raises no error
abbrev pub redacted : Patterns → String → ℕ → String
redacted rx s limit = or_default (redact_error_message rx s limit) ""

module _ (rx : Patterns) (print : Value → String) where
  -- the first items of a list, printed and redacted
  unfoldable pub printed_items : ℕ → Items → List String
  printed_items zero items = []
  printed_items (suc n) no_items = []
  printed_items (suc n) (item v rest) = redacted rx (str_of print v) 1024 ∷ printed_items n rest

  abbrev command_items : Option Value → List String
  command_items (some (array items)) = printed_items 32 items
  command_items _ = []

  -- `_display_command`
  unfoldable pub display_command : ActionProposal → List String
  display_command a =
      if a.tool == "sandbox_command" then command_items (lookup "argv" a.parameters) else []

  abbrev directory_text : Option Value → Option String
  directory_text (some (text s)) = if s == "" then none else some (redacted rx s 1024)
  directory_text _ = none

  -- `_display_cwd`
  unfoldable pub display_cwd : ActionProposal → Option String
  display_cwd a =
      if a.tool == "sandbox_command" then directory_text (lookup "cwd" a.parameters) else none

  -- `_display_output`
  unfoldable pub display_output : String → Option String
  display_output value =
      let text' = join "\n" (map (λ line. redacted rx line 8192) (split_lines value)) in
      if value == ""
      then none
      else if leb (size text') 8192
      then some text'
      else some (take_chars 8189 text' ++ "...")

  -- the summary of an action that did not run, and of one that did
  unfoldable pub action_summary :
      Option String → ActionProposal → Option ExecutionResult → SandboxActionSummary
  action_summary session a none = record {
    action_id = a.id;
    capability = a.tool;
    target = a.target;
    environment = a.environment;
    purpose = a.purpose;
    parameter_names = sorted (keys a.parameters);
    execution_status = none;
    exit_code = none;
    timed_out = false;
    duration_ms = none;
    command = display_command a;
    cwd = display_cwd a;
    stdout = display_output "";
    stderr = display_output "";
    sandbox_session_id = session;
    artifact_refs = [];
  }
  action_summary session a (some x) = record {
    action_id = a.id;
    capability = a.tool;
    target = a.target;
    environment = a.environment;
    purpose = a.purpose;
    parameter_names = sorted (keys a.parameters);
    execution_status = some x.status;
    exit_code = some x.exit_code;
    timed_out = x.timed_out;
    duration_ms = some x.duration_ms;
    command = display_command a;
    cwd = display_cwd a;
    stdout = display_output x.stdout;
    stderr = display_output x.stderr;
    sandbox_session_id = session;
    artifact_refs = x.artifacts;
  }

  abbrev proposed_summary :
      Option String → Option ActionProposal → Option ExecutionResult → List SandboxActionSummary
  proposed_summary session none x = []
  proposed_summary session (some a) x = action_summary session a x ∷ []

  -- `_sandbox_actions`
  unfoldable pub sandbox_actions : AgentState → List SandboxActionSummary
  sandbox_actions s =
      if non_empty s.action_history
      then map (λ (r : AgentActionRecord). action_summary s.sandbox_session_id r.action r.execution)
          s.action_history
      else proposed_summary s.sandbox_session_id s.proposed_action s.execution

unfoldable pub policy_summary : ValidationResult → PolicyDecisionSummary
policy_summary v = record {
  action_id = v.action_id;
  decision = if v.approved then approved else denied;
  reason = v.reason;
  rules = v.policy_rules;
}

abbrev current_decision : Option ValidationResult → List PolicyDecisionSummary
current_decision none = []
current_decision (some v) = policy_summary v ∷ []

-- `_policy_decisions`
unfoldable pub policy_decisions : AgentState → List PolicyDecisionSummary
policy_decisions s =
    if non_empty s.action_history
    then map (λ (r : AgentActionRecord). policy_summary r.validation) s.action_history
    else current_decision s.validation

abbrev pub is_budget : Option StopReason → Bool
is_budget (some step_budget_exhausted) = true
is_budget (some wall_clock_budget_exhausted) = true
is_budget _ = false

abbrev pub has_verdict : ReportStatus → Option Verdict → Bool
has_verdict confirmed (some Verdict.confirmed) = true
has_verdict rejected (some Verdict.rejected) = true
has_verdict _ _ = false

abbrev pub is_blocked : ReportStatus → Bool
is_blocked policy_blocked = true
is_blocked _ = false

abbrev pub is_inconclusive : ReportStatus → Bool
is_inconclusive inconclusive = true
is_inconclusive _ = false

-- `_decision_basis`
unfoldable pub decision_basis : AgentState → ReportStatus → DecisionBasis
decision_basis s status =
    if is_budget s.stop_reason
    then agent_budget
    else if is_blocked status
    then validator_policy
    else if any (λ (e : Evidence). has_verdict status e.verdict) s.evidence
    then capability_specific_evidence
    else if is_inconclusive status
        && leb (or_default s.max_steps (or_default s.max_iterations 2)) s.iteration_count
    then iteration_limit
    else workflow_state

-- `_VERIFICATION_LIMITATIONS`
abbrev pub verification_limitations : List (String × String)
verification_limitations =
    ("runtime_user_verified", "Runtime container user identity was not verified.")
    ∷ ("runtime_auth_verified", "Runtime authentication behavior was not verified.")
    ∷ ("browser_execution_verified", "Browser-side execution was not verified.")
    ∷ []

abbrev pub is_false : Option Value → Bool
is_false (some (boolean false)) = true
is_false _ = false

unfoldable pub unverified : List (String × Value) → List (String × String) → List String
unverified facts [] = []
unverified facts ((key, message) ∷ rest) =
    let others = unverified facts rest in
    if is_false (lookup key facts) then message ∷ others else others

unfoldable pub evidence_limitations : List Evidence → List String
evidence_limitations [] = []
evidence_limitations (e ∷ es) =
    List.◌++◌ (unverified e.observation.facts verification_limitations) (evidence_limitations es)

abbrev status_limitation : ReportStatus → List String
status_limitation policy_blocked =
    "No verification action was executed after Validator denial." ∷ []
status_limitation inconclusive = "No terminal capability-specific Evidence was obtained." ∷ []
status_limitation _ = []

abbrev budget_limitation : Option StopReason → List String
budget_limitation (some step_budget_exhausted) =
    "Agent stopped because the configured step budget was exhausted." ∷ []
budget_limitation (some wall_clock_budget_exhausted) =
    "Agent stopped because the wall-clock budget was exhausted." ∷ []
budget_limitation _ = []

-- `_limitations`
unfoldable pub limitations : AgentState → ReportStatus → List String
limitations s status = unique (
    List.◌++◌ (evidence_limitations s.evidence)
      (List.◌++◌ (status_limitation status) (budget_limitation s.stop_reason)))
