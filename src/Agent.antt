-- ===== src/Agent.antt =====
-- The agent: its budget (agent/loop.py), what a plan must be (schemas/plan.py), what a plan may do
-- (agent/planning.py), and its graph with the nodes (agent/graph.py, agent/nodes.py).
pub mod Loop
pub mod Planning
pub mod Consistency
pub mod Outside
pub mod Context
pub mod Nodes
pub mod Graph
pub mod Stub
