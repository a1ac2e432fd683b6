-- ===== src/Executor.antt =====
-- executor/: an approved action runs in the sandbox.
pub mod Approvals
pub mod Limiter
pub mod Policy
pub mod Capabilities
pub mod Finish
pub mod Attempt
pub mod Runner
pub mod Setup
