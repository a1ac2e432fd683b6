-- ===== src/Agent/Graph.antt =====
-- agent/graph.py: the edges between the nodes, and a run of the compiled graph. As LangGraph
-- documents, a super-step runs the node that is due, merges its update into the state and follows
-- the edge; a run that needs more super-steps than the recursion limit raises an error.
pub mod Steps
pub mod Progress
pub mod Ending
pub mod Approved
use cft_security_agent.Prelude.{
  ℕ, zero, suc, String, Bool, true, false, Option, some, none, if◌then◌else◌, ◌==◌, text_eq,
}
use cft_security_agent.Schemas.Action.{ValidationResult}
use cft_security_agent.Schemas.State.{AgentState}
use cft_security_agent.Agent.Outside.{Outside, Effect}
use cft_security_agent.Agent.Nodes
use cft_security_agent.Agent.Nodes.Collect

pub data Node : Type 0 where
  load_context score_finding guard_agent_budget analyse form_hypothesis propose_action
        validate_action execute collect_evidence reevaluate report :
      Node

-- where a node leads; `key_error` is the exception of an edge that reads a missing key
pub data Edge : Type 0 where
  to : Node → Edge
  finish key_error : Edge

abbrev pub recursion_limit : ℕ
recursion_limit = 128

abbrev pub has_status : String → Option String → Bool
has_status wanted none = false
has_status wanted (some s) = s == wanted

-- `_after_validation`
abbrev pub after_validation : Option ValidationResult → Edge
after_validation none = key_error
after_validation (some v) = if v.approved then to execute else to report

-- `_after_budget_guard`
abbrev pub after_budget_guard : AgentState → Edge
after_budget_guard s = if has_status "budget_ok" s.status then to analyse else to report

-- `_after_reevaluation`
abbrev pub after_reevaluation : AgentState → Edge
after_reevaluation s = if has_status "continue" s.status then to guard_agent_budget else to report

-- the edges of `build_graph`
unfoldable pub successor : Node → AgentState → Edge
successor load_context s = to score_finding
successor score_finding s = to guard_agent_budget
successor guard_agent_budget s = after_budget_guard s
successor analyse s = to form_hypothesis
successor form_hypothesis s = to propose_action
successor propose_action s = to validate_action
successor validate_action s = after_validation s.validation
successor execute s = to collect_evidence
successor collect_evidence s = to reevaluate
successor reevaluate s = after_reevaluation s
successor report s = finish

pub data RunEnd (S : Type 0) : Type 0 where
  finished : AgentState → S → RunEnd S
  raised recursion_error : RunEnd S

module _ {S : Type 0} (next : Node → AgentState → S → RunEnd S) where
  unfoldable pub along : Edge → AgentState → S → RunEnd S
  along (to node) s w = next node s w
  along finish s w = finished s w
  along key_error s w = raised

  unfoldable pub followed : Node → Option (AgentState × S) → RunEnd S
  followed node none = raised
  followed node (some (s, w)) = along (successor node s) s w

module _ {S : Type 0} (out : Outside S) where
  -- the functions that `build_graph` gives to `add_node`
  unfoldable pub run_node : Node → AgentState → Effect S AgentState
  run_node load_context = Nodes.load_context out
  run_node score_finding = Nodes.score_finding out
  run_node guard_agent_budget = Nodes.guard_agent_budget out
  run_node analyse = Nodes.analyse out
  run_node form_hypothesis = Nodes.form_hypothesis out
  run_node propose_action = Nodes.propose_action out
  run_node validate_action = Nodes.validate_action out
  run_node execute = Collect.execute_action out
  run_node collect_evidence = Collect.collect_evidence out
  run_node reevaluate = Collect.reevaluate out
  run_node report = Collect.build_report out

  unfoldable pub run : ℕ → Node → AgentState → S → RunEnd S
  run zero node s w = recursion_error
  run (suc n) node s w = followed (run n) node (run_node node s w)

  -- `graph.invoke(state)`
  abbrev pub invoke : AgentState → S → RunEnd S
  invoke s w = run recursion_limit load_context s w
