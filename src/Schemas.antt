-- ===== src/Schemas.antt =====
-- The records that the components exchange (schemas/*.py).
pub mod Finding
pub mod Action
pub mod Execution
pub mod Report
pub mod Evidence
pub mod Target
pub mod AgentLoop
pub mod State
pub mod Fix
pub mod Architecture
