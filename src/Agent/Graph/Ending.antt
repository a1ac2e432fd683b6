-- ===== src/Agent/Graph/Ending.antt =====
-- A run of the graph that no exception stops ends with the report of the last state.
use cft_security_agent.Prelude.{ℕ, zero, suc, ◌≡◌, ◌⊎◌, inl, inr, refl, some, arith, Option-cases}
use cft_security_agent.Schemas.State.{AgentState}
use cft_security_agent.Schemas.Report.{status_text}
use cft_security_agent.Reporting.{build_final_report}
use cft_security_agent.Agent.Outside.{Outside}
use cft_security_agent.Agent.Nodes.Collect
use cft_security_agent.Agent.Graph.{
  Node, Edge, RunEnd, finished, raised, recursion_error, successor, run_node, run, along, followed,
  invoke, to, finish, key_error, report, load_context,
}
use cft_security_agent.Agent.Graph.Progress.{graph_ends}

module _ {S : Type 0} (out : Outside S) where
  -- The state holds the report that `build_final_report` makes of the state before the last node,
  -- whose evidence, actions and decisions it keeps.
  abbrev pub IsReported : AgentState → Type 0
  IsReported s =
      (before : AgentState) × (s.final_report
        ≡ some (build_final_report out.patterns out.print before))
      × (s.status ≡ some (status_text (build_final_report out.patterns out.print before).status))
      × (s.finding ≡ before.finding)
      × (s.evidence ≡ before.evidence)
      × (s.action_history ≡ before.action_history)
      × (s.decision_history ≡ before.decision_history)

  abbrev Outcomes : RunEnd S → Type 0
  Outcomes r =
      (r ≡ recursion_error)
      ⊎ ((r ≡ raised) ⊎ ((s : AgentState) × (w : S) × (r ≡ finished s w) × IsReported s))

  -- the only node that leads to the end
  finish-IsReported :
      (node : Node) (s s' : AgentState) (w w' : S)
      → run_node out node s w ≡ some (s', w')
      → successor node s' ≡ finish
      → IsReported s'
  unfolding run_node successor Collect.build_report
  finish-IsReported report s s' w w' h e =
      (s, ground arith, ground arith, ground arith, ground arith, ground arith, ground arith)
  finish-IsReported _ s s' w w' h e = absurd (ground arith)

  along-Outcomes :
      (n : ℕ) (edge : Edge) (s : AgentState) (w : S)
      → (edge ≡ finish → IsReported s)
      → ((node : Node) (s : AgentState) (w : S) → Outcomes (run out n node s w))
      → Outcomes (along (run out n) edge s w)
  unfolding along
  along-Outcomes n (to node) s w f ih = ih node s w
  along-Outcomes n finish s w f ih = inr (inr (s, w, refl, f refl))
  along-Outcomes n key_error s w f ih = inr (inl refl)

  outcomes : (n : ℕ) (node : Node) (s : AgentState) (w : S) → Outcomes (run out n node s w)
  unfolding run followed
  outcomes zero node s w = inl refl
  outcomes (suc n) node s w = elim (Option-cases (run_node out node s w)) [
    | inl e ↦ rw e (inr (inl refl))
    | inr ((s', w'), e) ↦ rw e (
        along-Outcomes n (successor node s') s' w' (finish-IsReported node s s' w w' e)
          (outcomes n))
  ]

  -- A run of the graph, from any state, either is stopped by an exception of a node, or finishes
  -- with a final report: the one of the state that the last node found, whose finding, evidence,
  -- actions and decisions the final state has too.
  pub graph_reports :
      (s : AgentState) (w : S)
      → (invoke out s w ≡ raised)
        ⊎ ((s' : AgentState) × (w' : S) × (invoke out s w ≡ finished s' w') × IsReported s')
  graph_reports s w = elim (outcomes 128 load_context s w) [
    | inl e ↦ absurd (graph_ends out 128 s w (omega arith) e)
    | inr r ↦ r
  ]
