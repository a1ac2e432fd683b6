-- ===== src/Examples.antt =====
-- The theorems at concrete inputs, and runs of the definitions, one module for each part.
mod ScoringExamples
pub mod Samples
mod GateExamples
mod GuardExamples
pub mod PolicyExamples
pub mod ExecutorExamples
pub mod RunnerExamples
pub mod SchedulerExamples
pub mod FailureExamples
pub mod GraphExamples
pub mod ReportingExamples
pub mod FixExamples
pub mod StubExamples
pub mod PullRequestExamples
pub mod RuntimeMapExamples
