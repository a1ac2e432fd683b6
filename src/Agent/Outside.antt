-- ===== src/Agent/Outside.antt =====
-- What the nodes of the agent use that is no state of the agent: agent/model.py as an interface,
-- the executor of agent/lab.py, the clock, the files and the cancellation.
use cft_security_agent.Prelude.{ℕ, String, Bool, Option, some, none, List}
use cft_security_agent.Schemas.Action.{Value, ActionProposal, ValidationResult}
use cft_security_agent.Schemas.Execution.{ExecutionResult}
use cft_security_agent.Schemas.AgentLoop.{
  AnalysisResult, Hypothesis, DynamicPlan, ReevaluationResult,
}
use cft_security_agent.Schemas.Target.{TargetProfile, RuntimeServiceMap}
use cft_security_agent.Schemas.State.{AgentState}
use cft_security_agent.Redaction.{Patterns}
use cft_security_agent.Validator.Document.{Policy}
use cft_security_agent.Executor.Approvals.{ApprovalStore}
use cft_security_agent.Interpreter.{StoredRecord, Readers}

-- A computation on the outside `S`; `none` is an exception that leaves the node.
abbrev pub Effect : Type 0 → Type 0 → Type 0
Effect S A = S → Option (A × S)

infixl 5 ◌>>=◌ ◌>>◌
abbrev pub ◌>>=◌ : {S A B : Type 0} → Effect S A → (A → Effect S B) → Effect S B
◌>>=◌ m f w = elim (m w) [ none ↦ none | some (a, w') ↦ f a w' ]

abbrev pub ◌>>◌ : {S B : Type 0} → Effect S (Unit {0}) → Effect S B → Effect S B
m >> k = m >>= λ _. k

abbrev pub return : {S A : Type 0} → A → Effect S A
return a w = some (a, w)

-- `state["key"]`, with `none` for the `KeyError`
abbrev pub required : {S A : Type 0} → Option A → Effect S A
required none w = none
required (some a) w = some (a, w)

abbrev pub fail : {S A : Type 0} → Effect S A
fail w = none

-- `SafeExecutor` as the node `execute_action` uses it. `is_active` says whether a lab is open;
-- `from_config` makes an executor with the approvals given and the backend it is told to take.
pub record AgentExecutor (S : Type 0) : Type 0 where
  pub digest : ActionProposal → String
  pub is_active : S → Bool
  pub from_config : TargetProfile → Option String → ApprovalStore → Effect S (Unit {0})
  pub record_approval : ActionProposal → ValidationResult → Effect S (Unit {0})
  pub open_managed_lab : RuntimeServiceMap → TargetProfile → Effect S (Unit {0})
  pub execute : ActionProposal → Effect S ExecutionResult
  pub execute_sequence : ActionProposal → RuntimeServiceMap → Effect S (List ExecutionResult)

-- `AgentReasoningModel`
pub record AgentModel (S : Type 0) : Type 0 where
  pub analyse : AgentState → Effect S AnalysisResult
  pub form_hypothesis : AgentState → AnalysisResult → Effect S Hypothesis
  pub build_plan : AgentState → AnalysisResult → Hypothesis → Effect S DynamicPlan
  pub reevaluate : AgentState → Effect S ReevaluationResult

-- The settings, the files they name as they read during a run, and the world. `target` and `policy`
-- are `none` where the file cannot be read; `get_execution` is `none` where the store raises one of
-- the exceptions that the node catches. `normalize_path` is the path of a file inside the
-- repository, `none` where it leaves it, and `parts` the number of its parts (pathlib).
pub record Outside (S : Type 0) : Type 0 where
  pub max_iterations : ℕ
  pub wall_clock : ℕ
  pub target : Option TargetProfile
  pub policy : Option Policy
  pub patterns : Patterns
  pub print : Value → String
  pub readers : Readers
  pub normalize_path : String → Option String
  pub parts : String → ℕ
  pub check_cancelled : Effect S (Unit {0})
  pub now : S → ℕ × S
  pub fresh_ids : S → (String → String) × S
  pub get_execution : String → S → Option StoredRecord
  pub model : AgentModel S
  pub agent_executor : AgentExecutor S
