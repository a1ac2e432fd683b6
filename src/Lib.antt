-- ===== src/Lib.antt =====
-- The security agent: a finding of a static analysis is scored, an agent forms a hypothesis and a
-- plan, a deterministic policy approves each action, an executor runs it in a sandbox, the
-- evidence of the run gives a verdict, and the reports of all findings decide the CI gate.
--
-- Files and the code they model (paths from the repository's root):
--   Schemas: schemas/*.py, the data passed between the parts.
--   Scoring: scoring/service.py. ScoringService.score is `score`, its tables and levels are
--     `total_score`, `priority_level`. Every table holds multiples of 0.5, so points are counted
--     in halves and no floating point is needed.
--   Redaction: security/error_redaction.py. The six regular expressions are the parameter
--     `Patterns`, since Python's `re` is a library.
--   Validator: validator/validator.py. PolicyValidator.validate is `validate`, in two parts that
--     follow the order of the tests; Validator/Document is the policy document, typed, each
--     section optional; Validator/Parameters the contracts; Validator/Contract and
--     Validator/Approval the independent specification.
--   Agent/Planning: agent/planning.py (DynamicPlanValidator). Agent/Loop: agent/loop.py.
--   Agent/Nodes, Agent/Nodes/Collect: agent/nodes.py, a function for each node, from a state to
--     the state with its update merged in. Agent/Outside is the interface that they use: the
--     reasoning model (agent/model.py), the executor of agent/lab.py, the clock, the settings and
--     the files. Agent/Context: resolve_service, artifact_id_for_path and artifact_id_for_role of
--     schemas/target.py.
--   Agent/Graph: agent/graph.py, the edges and a run of the compiled graph. Agent/Graph/Progress,
--     Agent/Graph/Ending and Agent/Graph/Approved are about whole runs.
--   Agent/Stub, Agent/Stub/Choices: DeterministicAgentModel of agent/model.py.
--   Fix, Fix/Checks: fix_verification/service.py, with the files and processes as an interface.
--     Fix/Meaning says what its tests of a patch and of a command mean.
--   PullRequest, PullRequest/Diff: pr_analysis/service.py and pr_analysis/git_diff.py.
--   Architecture: architecture/context.py.
--   RuntimeMap, RuntimeMap/Compose: executor/runtime_service_map.py, for any probes.
--   Interpreter, Interpreter/Surface: evidence/interpreter.py and evidence/runtime.py.
--   Reporting, Reporting/Parts: reporting/builder.py.
--   Executor/Approvals: executor/approvals.py; the digest of a proposal is a parameter.
--   Executor/Limiter: RunLimiter of executor/sandbox.py; Executor/Limiter/Threads runs its locked
--     sections from many threads in any order, as a step relation.
--   Executor/Policy: executor/sandbox_policy.py and tools/registry.py.
--   Executor/Capabilities, Executor/Finish, Executor/Attempt: executor/executor.py. _execute_one
--     is `execute_one` of Executor/Attempt/Flow; it returns the result, the limiter and what was
--     sent to the sandbox. _finish is `finish`. The sandbox, the evidence store and the audit log
--     are functions of the executor's record, any of which may fail.
--   Executor/Runner: executor/sandbox_runner.py, for any executor of one action.
--   Executor/Setup: _runtime_setup_error of executor/executor.py.
--   Scheduler/Budget, Scheduler/Queue: api/scheduler.py. The two locked sections of the release of
--     a lease are two steps; the processors are a float, with the arithmetic as a parameter.
--   Failures: pipeline/errors.py; the classes of exceptions are a data type.
--   Agent/Consistency: the validator of DynamicPlan in schemas/plan.py.
--   Guard: evidence/guard.py. The set of terminal verdicts is read by two tests of membership.
--   Gate: pipeline/policy.py; Gate/Decision: pipeline/gate.py.
--   Examples: sample data and the properties at concrete inputs.
--   Prelude: lists, texts and association lists shared by all.
--
-- State is passed explicitly: an AgentState record, read by the guard, the budgets and the plan
-- validator and updated by the nodes. Python's None and missing keys are Option; a dict is an association list in its
-- order; errors are Option or a result record, as in the code; a node of the agent is an effect on
-- the world outside, with none for an exception. Loops of the source run over lists, so the
-- definitions are structural. Only the run of the graph has fuel, which is LangGraph's own count of
-- super-steps: 68 are enough, and the limit is 128. Shared objects that threads change
-- (the run limiter, the budget, the queue) are states that change by steps, and their properties hold
-- in every reachable state.
--
-- Bounds: integers of policies and states are naturals. A negative limit is refused by the code
-- exactly as 0 is; exit codes are compared with 0 only. Time is in microseconds. Case mapping of
-- texts is that of ASCII. Names printed by the policy's messages have no quotes or backslashes.
-- Enum values of a contract are scalars, and its list parameters are visited in document order,
-- where the source walks a set.
--
-- Not modelled: sandbox sessions, target discovery and the HTTP store; and, being input and output or services, language-model clients
-- and prompts, FastAPI glue, SQLite, docker and other subprocesses, semgrep, the web frontend,
-- scripts, tests and example targets.

pub mod Prelude
pub mod Schemas
pub mod Redaction
pub mod Scoring
pub mod Gate
pub mod Guard
pub mod Validator
pub mod Agent
pub mod Executor
pub mod Scheduler
pub mod Failures
pub mod Interpreter
pub mod Reporting
pub mod Fix
pub mod Architecture
pub mod PullRequest
pub mod RuntimeMap
pub mod Examples
